-- ===== src/Udp/Session/Refines.antt =====
-- `handle_login`, `handle_logout` and `handle_unregister` implement the transitions of accounts.
use mathlib.Core.Path.{subst}
use mathlib.Core.Option.{some-injective}
use auction_simulator.Prelude.{
  ◌≡◌, sym, ◌∙◌, Bool, true, false, none, some, arith, inl, inr, if◌then◌else◌,
}
use auction_simulator.Text.{Bytes, codes, same}
use auction_simulator.Text.Scan.{IsWord}
use auction_simulator.World.{World, UserDir}
use auction_simulator.World.Dir.{find, Values, Values-find}
use auction_simulator.World.Ends.{Ends, Ends-if}
use auction_simulator.Users.{
  create_user, verify_user_exists, is_user_login, change_user_login, delete_user, set_user, made,
}
use auction_simulator.Users.Laws.{IsUser, verify_password_correct_lem}
use auction_simulator.Udp.Session.{login, logout, unregister}
use auction_simulator.Udp.Session.Accounts.{
  absent, known, account, Request, log_in, log_out, sign_off, perform, password_of, transition,
  Follows, Account-cases, stay-Follows, set-Follows,
}

-- The three ways in which the requests write a user's directory.
IsUser-login :
    (u : UserDir) (t : Bytes) (b : Bool)
    → u.pass ≡ some t
    → IsWord t
    → IsUser (record u { login = b })
IsUser-login u t b e h = record {
  registered = λ _ missing. cc;
  word = λ s f. subst IsWord (some-injective _ _ (sym e ∙ f)) h;
}

IsUser-new :
    (u : UserDir) (t : Bytes) → IsWord t → IsUser (record u { pass = some t; login = true })
IsUser-new u t h = record {
  registered = λ _ missing. cc;
  word = λ s f. subst IsWord (some-injective _ _ f) h;
}

IsUser-gone : (u : UserDir) → IsUser (record u { pass = none; login = false })
IsUser-gone u = record { registered = λ on. cc; word = λ s f. cc }

module _ (uid : Bytes) (w : World) (sound : Values IsUser w.users) where
  login_absent :
      (password : Bytes)
      → account uid w ≡ absent
      → login uid password w
        ≡ some (
          codes "RLI REG\n",
          set_user uid (record (made (find uid w.users)) { pass = some password; login = true }) w,
        )
  unfolding login verify_user_exists create_user
  login_absent password e = ground arith

  logout_absent :
      (password : Bytes)
      → account uid w ≡ absent
      → logout uid password w ≡ some (codes "RLO UNR\n", w)
  unfolding logout verify_user_exists
  logout_absent password e = ground arith

  unregister_absent :
      (password : Bytes)
      → account uid w ≡ absent
      → unregister uid password w ≡ some (codes "RUR NOK\n", w)
  unfolding unregister verify_user_exists
  unregister_absent password e = ground arith

  absent-Follows :
      (r : Request)
      → IsWord (password_of r)
      → account uid w ≡ absent
      → Ends (perform uid r w) (Follows uid r w)
  unfolding transition
  absent-Follows (log_in password) word e = rw (login_absent password e) (
      set-Follows uid _ w sound _ _ (ground arith) (ground arith)
        (IsUser-new (made (find uid w.users)) password word))
  absent-Follows (log_out password) word e =
      rw (logout_absent password e) (stay-Follows uid _ w sound _ (ground arith))
  absent-Follows (sign_off password) word e =
      rw (unregister_absent password e) (stay-Follows uid _ w sound _ (ground arith))

  module _ (u : UserDir) (t : Bytes) (found : find uid w.users ≡ some u)
      (passed : u.pass ≡ some t) where
    IsWord-known : IsWord t
    IsWord-known = (Values-find IsUser uid w.users sound found).word t passed

    login_known :
        (password : Bytes)
        → login uid password w ≡ (
            if same t password
            then (if u.login
                then some (codes "RLI NOK\n", w)
                else some (codes "RLI OK\n", set_user uid (record u { login = true }) w))
            else some (codes "RLI NOK\n", w))
    unfolding login verify_user_exists is_user_login change_user_login
    login_known password =
        ground (arith, verify_password_correct_lem uid password t w found passed IsWord-known)

    logout_known :
        (password : Bytes)
        → logout uid password w ≡ (
            if same t password
            then (if u.login
                then some (codes "RLO OK\n", set_user uid (record u { login = false }) w)
                else some (codes "RLO NOK\n", w))
            else some (codes "RLO NOK\n", w))
    unfolding logout verify_user_exists is_user_login change_user_login
    logout_known password =
        ground (arith, verify_password_correct_lem uid password t w found passed IsWord-known)

    unregister_known :
        (password : Bytes)
        → unregister uid password w ≡ (
            if same t password
            then (if u.login
                then some
                    (codes "RUR OK\n", set_user uid (record u { pass = none; login = false }) w)
                else some (codes "RUR NOK\n", w))
            else some (codes "RUR NOK\n", w))
    unfolding unregister verify_user_exists is_user_login delete_user
    unregister_known password =
        ground (arith, verify_password_correct_lem uid password t w found passed IsWord-known)

    account_known : account uid w ≡ known t u.login
    account_known = ground arith

    known-Follows : (r : Request) → Ends (perform uid r w) (Follows uid r w)
    unfolding transition
    known-Follows (log_in password) = rw (login_known password) (
        Ends-if (same t password) _ _ _
          (λ right.
            Ends-if u.login _ _ _ (λ on. stay-Follows uid _ w sound _ (ground arith))
              (λ off.
                set-Follows uid _ w sound _ _ (ground arith) (ground arith)
                  (IsUser-login u t true passed IsWord-known)))
          (λ wrong. stay-Follows uid _ w sound _ (ground arith)))
    known-Follows (log_out password) = rw (logout_known password) (
        Ends-if (same t password) _ _ _
          (λ right.
            Ends-if u.login _ _ _
              (λ on.
                set-Follows uid _ w sound _ _ (ground arith) (ground arith)
                  (IsUser-login u t false passed IsWord-known))
              (λ off. stay-Follows uid _ w sound _ (ground arith)))
          (λ wrong. stay-Follows uid _ w sound _ (ground arith)))
    known-Follows (sign_off password) = rw (unregister_known password) (
        Ends-if (same t password) _ _ _
          (λ right.
            Ends-if u.login _ _ _
              (λ on. set-Follows uid _ w sound _ _ (ground arith) (ground arith) (IsUser-gone u))
              (λ off. stay-Follows uid _ w sound _ (ground arith)))
          (λ wrong. stay-Follows uid _ w sound _ (ground arith)))

pub perform-Follows :
    (uid : Bytes) (r : Request) (w : World)
    → Values IsUser w.users
    → IsWord (password_of r)
    → Ends (perform uid r w) (Follows uid r w)
perform-Follows uid r w sound word = elim (Account-cases (find uid w.users)) [
  | inl e ↦ absent-Follows uid w sound r word e
  | inr (u, t, found, passed) ↦ known-Follows uid w sound u t found passed r
]

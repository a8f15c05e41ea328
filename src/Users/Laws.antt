-- ===== src/Users/Laws.antt =====
-- What a server keeps of a user: a password that can be read back, and no login without one.
use auction_simulator.Prelude.{
  ◌≡◌, ◌≢◌, true, none, some, [], append-nil, arith, inl, inr, Option-cases,
}
use auction_simulator.Text.{Bytes, same}
use auction_simulator.Text.Scan.{IsWord, scan_string, scan_string-word}
use auction_simulator.World.{World, UserDir}
use auction_simulator.World.Dir.{find, Values, Values-find}
use auction_simulator.Users.{verify_password_correct, is_user_login, verify_user_exists}

pub record IsUser (u : UserDir) : Type 0 where
  pub registered : u.login ≡ true → u.pass ≢ none
  pub word : (t : Bytes) → u.pass ≡ some t → IsWord t

scan_string_all : (t : Bytes) → IsWord t → scan_string t ≡ some (t, [])
scan_string_all t h = rw append-nil at (scan_string-word t [] h tt)

-- With a password file, the check compares and changes nothing.
pub verify_password_correct_lem :
    (uid password t : Bytes) (w : World) {u : UserDir}
    → find uid w.users ≡ some u
    → u.pass ≡ some t
    → IsWord t
    → verify_password_correct uid password w ≡ some (same t password, w)
unfolding verify_password_correct
verify_password_correct_lem uid password t w {u} found passed h =
    ground (arith, scan_string_all t h)

-- A user who is logged in has a directory and a password.
pub is_user_login_known :
    (uid : Bytes) (w : World)
    → Values IsUser w.users
    → is_user_login uid w ≡ true
    → (u : UserDir) × (t : Bytes) × (find uid w.users ≡ some u) × (u.pass ≡ some t) × IsWord t
unfolding is_user_login
is_user_login_known uid w s on = elim (Option-cases (find uid w.users)) [
  | inl gone ↦ absurd (ground arith)
  | inr (u, found) ↦
      let h = Values-find IsUser uid w.users s found in
      elim (Option-cases u.pass) [
        | inl missing ↦ absurd (h.registered (ground arith) missing)
        | inr (t, passed) ↦ (u, t, found, passed, h.word t passed)
      ]
]

-- A registered user has a directory and a password.
pub registered_known :
    (uid : Bytes) (w : World)
    → Values IsUser w.users
    → verify_user_exists uid w ≡ true
    → (u : UserDir) × (t : Bytes) × (find uid w.users ≡ some u) × (u.pass ≡ some t) × IsWord t
unfolding verify_user_exists
registered_known uid w s registered = elim (Option-cases (find uid w.users)) [
  | inl gone ↦ absurd (ground arith)
  | inr (u, found) ↦
      let h = Values-find IsUser uid w.users s found in
      elim (Option-cases u.pass) [
        | inl missing ↦ absurd (ground arith)
        | inr (t, passed) ↦ (u, t, found, passed, h.word t passed)
      ]
]

-- ===== src/Client/Session/Agrees.antt =====
-- The session of a client and the account on the server.
use auction_simulator.Prelude.{◌≡◌, refl, sym, ◌∙◌, ap, Bool, true, false, not, ◌&&◌, some, arith}
use auction_simulator.Text.{Bytes, same, same_iff}
use auction_simulator.World.{World}
use auction_simulator.World.Dir.{Values}
use auction_simulator.World.Monad.{◌>>=◌, pure, crash}
use auction_simulator.World.Ends.{Ends, Ends-bind, Ends-mono, Ends-test, Ends-some}
use auction_simulator.World.Platform.{Platform}
use auction_simulator.Users.Laws.{IsUser}
use auction_simulator.Udp.Session.Accounts.{
  account, Account, absent, known, Request, log_in, log_out, sign_off, transition,
}
use auction_simulator.Client.Session.{
  Session, no_session, scan_login, valid_login, ask_login, login, logout, unregister, login_command,
  logout_command, unregister_command,
}
use auction_simulator.Client.Session.Asked.{agreed, ask, ask-Asked, Asked}

-- The client is logged in with valid fields only while the server has the account logged in with
-- the same password.
pub record Agrees (s : Session) (w : World) : Type 0 where
  pub sound : Values IsUser w.users
  pub valid : s.logged_in ≡ true → valid_login s.uid s.password ≡ true
  pub held : s.logged_in ≡ true → account s.uid w ≡ known s.password true

same_self : (s : Bytes) → same s s ≡ true
same_self s = (same_iff s s).1 refl

agreed-login :
    (password : Bytes) (a : Account)
    → agreed (log_in password) a ≡ true
    → (transition (log_in password) a).0 ≡ known password true
unfolding transition
agreed-login password absent h = refl
agreed-login password (known q true) h = ground arith
agreed-login password (known q false) h = ground (arith, (same_iff q password).0)

-- A session that is logged out agrees with every sound world.
out-Agrees : (s : Session) (w : World) → Values IsUser w.users → s.logged_in ≡ false → Agrees s w
out-Agrees s w sound e = record {
  sound = sound;
  valid = λ on. absurd (ground arith);
  held = λ on. absurd (ground arith);
}

module _ ⦃p : Platform⦄ where
  -- After a `login`: the client is logged in if its tests and the server agree to it.
  pub record LoggedIn (typed : Session) (w : World) (got : Session × Bytes) (w' : World)
      : Type 0 where
    pub session : got.0 ≡ record typed {
      logged_in =
          valid_login typed.uid typed.password
          && agreed (log_in typed.password) (account typed.uid w);
    }
    pub agrees : Agrees got.0 w'

  -- After a `logout` or `unregister`: the session is cleared, and the account has moved.
  pub record LoggedOut (s : Session) (a : Account) (got : Session × Bytes) (w' : World)
      : Type 0 where
    pub session : got.0 ≡ no_session
    pub moved : account s.uid w' ≡ a
    pub agrees : Agrees got.0 w'

  logged-in :
      (typed : Session) (w : World) (got : Bool × Bytes) (w' : World)
      → valid_login typed.uid typed.password ≡ true
      → Asked typed.uid (log_in typed.password) w got w'
      → LoggedIn typed w (record typed { logged_in = got.0 }, got.1) w'
  logged-in typed w got w' h a = record {
    session = ap (λ b. record typed { logged_in = b }) (a.done ∙ rw h refl);
    agrees = record {
      sound = a.sound;
      valid = λ on. h;
      held = λ on.
          a.moved typed.uid
          ∙ rw (same_self typed.uid)
              (agreed-login typed.password (account typed.uid w) (sym a.done ∙ on));
    };
  }

  login-LoggedIn :
      (typed : Session) (w : World)
      → Values IsUser w.users
      → Ends
          (login typed w)
          (λ got w'. LoggedIn typed w (record typed { logged_in = got.0 }, got.1) w')
  unfolding login ask_login
  login-LoggedIn typed w sound =
      Ends-test (valid_login typed.uid typed.password) _ _ w _
        (λ h.
          Ends-mono (ask typed.uid (log_in typed.password) w) _ _
            (ask-Asked typed.uid (log_in typed.password) w sound h)
            (λ got w' a. logged-in typed w got w' h a))
        (λ h. record { session = rw h refl; agrees = out-Agrees _ w sound refl })

  pub login_command-LoggedIn :
      (input : Bytes) (s typed : Session) (w : World)
      → Values IsUser w.users
      → s.logged_in ≡ false
      → scan_login input s ≡ some typed
      → Ends (login_command input s w) (LoggedIn typed w)
  unfolding login_command
  login_command-LoggedIn input s typed w sound off scanned =
      Ends-test s.logged_in _ _ w _ (λ on. absurd (ground arith))
        (λ _.
          Ends-some (scan_login input s) crash
            (λ t. login t >>= λ got. pure (record t { logged_in = got.0 }, got.1)) w
            (LoggedIn typed w) scanned
            (Ends-bind (login typed w) _
              (λ got w'. LoggedIn typed w (record typed { logged_in = got.0 }, got.1) w')
              (LoggedIn typed w) (login-LoggedIn typed w sound) (λ got w' l. l)))

  -- The request of a session that agrees is carried out.
  leaves :
      (kind : Bytes → Request) (s : Session) (w : World) (got : Bool × Bytes) (w' : World)
      (a : Account)
      → Asked s.uid (kind s.password) w got w'
      → agreed (kind s.password) (account s.uid w) ≡ true
      → (transition (kind s.password) (account s.uid w)).0 ≡ a
      → (got.0 ≡ true) × (account s.uid w' ≡ a)
  leaves kind s w got w' a asked agrees to =
      (asked.done ∙ agrees, asked.moved s.uid ∙ rw (same_self s.uid) to)

  cleared :
      (s : Session) (a : Account) (out : Bytes) (w' : World)
      → Values IsUser w'.users
      → account s.uid w' ≡ a
      → LoggedOut s a (no_session, out) w'
  cleared s a out w' sound moved = record {
    session = refl;
    moved = moved;
    agrees = out-Agrees no_session w' sound refl;
  }

  -- Where the client's user is logged in and so is the account on the server, with the same
  -- password, logout ends with an empty session, and the account is registered with this password
  -- and logged out.
  pub logout_command-LoggedOut :
      (s : Session) (w : World)
      → Agrees s w
      → s.logged_in ≡ true
      → Ends (logout_command s w) (LoggedOut s (known s.password false))
  unfolding logout_command logout transition
  logout_command-LoggedOut s w h on =
      let r = log_out s.password in
      Ends-test (not s.logged_in) _ _ w _ (λ off. absurd (ground arith))
        (λ _.
          Ends-bind (ask s.uid r w) _ (Asked s.uid r w) (LoggedOut s (known s.password false))
            (ask-Asked s.uid r w h.sound (h.valid on))
            (λ got w' asked.
              let (done, moved) =
                leaves log_out s w got w' (known s.password false) asked
                  (rw (h.held on) (same_self s.password))
                  (rw (h.held on, same_self s.password) refl) in
              rw done (cleared s _ got.1 w' asked.sound moved)))

  -- Where the client's user is logged in and so is the account on the server, with the same
  -- password, unregister ends with an empty session, and the account is gone.
  pub unregister_command-LoggedOut :
      (s : Session) (w : World)
      → Agrees s w
      → s.logged_in ≡ true
      → Ends (unregister_command s w) (LoggedOut s absent)
  unfolding unregister_command unregister transition
  unregister_command-LoggedOut s w h on =
      let r = sign_off s.password in
      Ends-test (not s.logged_in) _ _ w _ (λ off. absurd (ground arith))
        (λ _.
          Ends-bind (ask s.uid r w) _ (Asked s.uid r w) (LoggedOut s absent)
            (ask-Asked s.uid r w h.sound (h.valid on))
            (λ got w' asked.
              let (done, moved) =
                leaves sign_off s w got w' absent asked (rw (h.held on) (same_self s.password))
                  (rw (h.held on, same_self s.password) refl) in
              rw done (cleared s absent got.1 w' asked.sound moved)))

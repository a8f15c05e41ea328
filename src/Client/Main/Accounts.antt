-- ===== src/Client/Main/Accounts.antt =====
-- The rounds of `login`, `logout` and `unregister`, with the server.
use auction_simulator.Prelude.{◌≡◌, false, not, inl, inr, Bool-cases, some, [], arith}
use auction_simulator.Text.{Bytes, codes, same}
use auction_simulator.World.{World}
use auction_simulator.World.Monad.{M}
use auction_simulator.World.Ends.{Ends, Ends-bind, Ends-mono, Ends-test}
use auction_simulator.World.Platform.{Platform}
use auction_simulator.Udp.Session.Accounts.{absent, known}
use auction_simulator.Client.Session.{
  Session, scan_login, login_command, logout_command, unregister_command,
}
use auction_simulator.Client.Session.Agrees.{
  Agrees, LoggedIn, LoggedOut, login_command-LoggedIn, logout_command-LoggedOut,
  unregister_command-LoggedOut,
}
use auction_simulator.Client.Asset.{Files}
use auction_simulator.Client.Connection.{Link}
use auction_simulator.Client.Main.{Client, Round, again, stopped, run_command, moved}

pub data AccountCommand : Type 0 where
  typed_login : Bytes → AccountCommand
  typed_logout typed_unregister : AccountCommand

abbrev pub command_of : AccountCommand → Bytes
command_of (typed_login input) = codes "login"
command_of typed_logout = codes "logout"
command_of typed_unregister = codes "unregister"

abbrev pub input_of : AccountCommand → Bytes
input_of (typed_login input) = input
input_of typed_logout = []
input_of typed_unregister = []

-- The words behind `login` fit their arrays.
abbrev pub WordsFit : AccountCommand → Session → Type 0
WordsFit (typed_login input) s = (typed : Session) × (scan_login input s ≡ some typed)
WordsFit typed_logout s = Unit
WordsFit typed_unregister s = Unit

-- The loop goes on with a session that agrees.
abbrev pub GoesOn : Round → World → Type 0
GoesOn (again c out) w = Agrees c.session w
GoesOn stopped w = ⊥

module _ ⦃p : Platform⦄ where
  login_command-Agrees :
      (input : Bytes) (s typed : Session) (w : World)
      → Agrees s w
      → scan_login input s ≡ some typed
      → Ends (login_command input s w) (λ got w'. Agrees got.0 w')
  login_command-Agrees input s typed w h e = elim (Bool-cases s.logged_in) [
    | inl on ↦
        unfold login_command in
        Ends-test s.logged_in _ _ w _ (λ _. h) (λ off. absurd (ground arith))
    | inr off ↦
        Ends-mono (login_command input s w) (LoggedIn typed w) _
          (login_command-LoggedIn input s typed w h.sound off e) (λ got w' l. l.agrees)
  ]

  logout_command-Agrees :
      (s : Session) (w : World) → Agrees s w → Ends (logout_command s w) (λ got w'. Agrees got.0 w')
  logout_command-Agrees s w h = elim (Bool-cases s.logged_in) [
    | inl on ↦
        Ends-mono (logout_command s w) (LoggedOut s (known s.password false)) _
          (logout_command-LoggedOut s w h on) (λ got w' l. l.agrees)
    | inr off ↦
        unfold logout_command in
        Ends-test (not s.logged_in) _ _ w _ (λ _. h) (λ on. absurd (ground arith))
  ]

  unregister_command-Agrees :
      (s : Session) (w : World)
      → Agrees s w
      → Ends (unregister_command s w) (λ got w'. Agrees got.0 w')
  unregister_command-Agrees s w h = elim (Bool-cases s.logged_in) [
    | inl on ↦
        Ends-mono (unregister_command s w) (LoggedOut s absent) _
          (unregister_command-LoggedOut s w h on) (λ got w' l. l.agrees)
    | inr off ↦
        unfold unregister_command in
        Ends-test (not s.logged_in) _ _ w _ (λ _. h) (λ on. absurd (ground arith))
  ]

  moved-GoesOn :
      (c : Client) (m : M (Session × Bytes)) (w : World)
      → Ends (m w) (λ got w'. Agrees got.0 w')
      → Ends (moved c m w) GoesOn
  moved-GoesOn c m w h = Ends-bind (m w) _ (λ got w'. Agrees got.0 w') GoesOn h (λ got w' a. a)

  -- Where the users of the server are sound, and a user who is logged in at the client has valid
  -- fields and is logged in on the server with the same password, a round of login with words
  -- that fit, of logout or of unregister ends without a crash of either side, and the same holds
  -- after it.
  pub run_command-GoesOn :
      (link : Link) (local_assets : Files) (a : AccountCommand) (c : Client) (w : World)
      → Agrees c.session w
      → WordsFit a c.session
      → Ends (run_command link local_assets (command_of a) (input_of a) c w) GoesOn
  unfolding run_command same
  run_command-GoesOn link local_assets (typed_login input) c w h (typed, e) =
      moved-GoesOn c (login_command input c.session) w
        (login_command-Agrees input c.session typed w h e)
  run_command-GoesOn link local_assets typed_logout c w h ok =
      moved-GoesOn c (logout_command c.session) w (logout_command-Agrees c.session w h)
  run_command-GoesOn link local_assets typed_unregister c w h ok =
      moved-GoesOn c (unregister_command c.session) w (unregister_command-Agrees c.session w h)

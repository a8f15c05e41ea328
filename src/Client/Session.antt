-- ===== src/Client/Session.antt =====
-- `login`, `logout` and `unregister` of client/functions.c, and the branches of the loop of
-- client/client.c that call them.
pub mod Exchange
pub mod Asked
pub mod Agrees
use auction_simulator.Prelude.{
  ℕ, Bool, true, false, not, ◌&&◌, Option, none, some, [], ◌∷◌, ◌++◌, leb, ◌==◌, length,
  if◌then◌else◌,
}
use auction_simulator.Text.{Bytes, codes, all, is_digit, is_alnum}
use auction_simulator.Text.Scan.{scan_string}
use auction_simulator.World.Monad.{M, ◌>>=◌, pure, crash}
use auction_simulator.World.Platform.{Platform}
use auction_simulator.Client.Network.{connect_udp}
use auction_simulator.Client.Requests.{login_request, logout_request, unregister_request}
use auction_simulator.Client.Answers.{login_answer, logout_answer, unregister_answer}

-- `uid`, `password` and `user_loggedin` of `main`.
pub record Session : Type 0 where
  pub uid : Bytes
  pub password : Bytes
  pub logged_in : Bool

abbrev pub no_session : Session
no_session = record { uid = []; password = []; logged_in = false }

abbrev second_word : Session → Bytes → Option (Bytes × Bytes) → Option Session
second_word s uid none = some (record s { uid = uid })
second_word s uid (some (password, rest)) =
    if leb (length password) 8 then some (record s { uid = uid; password = password }) else none

abbrev first_word : Session → Option (Bytes × Bytes) → Option Session
unfolding scan_string
first_word s none = some s
first_word s (some (uid, rest)) =
    if leb (length uid) 6 then second_word s uid (scan_string rest) else none

-- `sscanf(input, "%s %s", uid, password)`: a word that is missing leaves its array as it was, and one
-- that is too long is written past its end.
unfoldable pub scan_login : Bytes → Session → Option Session
unfolding scan_string first_word
scan_login input s = first_word s (scan_string input)

-- The tests of the lengths and of each byte.
unfoldable pub valid_login : Bytes → Bytes → Bool
unfolding all
valid_login uid password =
    length uid == 6 && length password == 8 && all is_digit uid && all is_alnum password

module _ ⦃p : Platform⦄ where
  -- The part of `login` behind the checks: 1 or 0, and what it prints.
  unfoldable pub ask_login : Session → M (Bool × Bytes)
  unfolding login_request login_answer
  ask_login s = do
    buffer ← connect_udp 128 (login_request s.uid s.password)
    pure (login_answer buffer)

  unfoldable pub login : Session → M (Bool × Bytes)
  login s =
      if valid_login s.uid s.password
      then ask_login s
      else pure (false, codes "Invalid login attempt.\n")

  unfoldable pub logout : Session → M (Bool × Bytes)
  unfolding logout_request logout_answer
  logout s = do
    buffer ← connect_udp 128 (logout_request s.uid s.password)
    pure (logout_answer buffer)

  unfoldable pub unregister : Session → M (Bool × Bytes)
  unfolding unregister_request unregister_answer
  unregister s = do
    buffer ← connect_udp 128 (unregister_request s.uid s.password)
    pure (unregister_answer buffer)

  -- `if (user_loggedin) … else if (login(…)) user_loggedin = 1;`
  unfoldable pub login_command : Bytes → Session → M (Session × Bytes)
  login_command input s =
      if s.logged_in
      then pure (s, codes "You are already logged in.\n")
      else elim (scan_login input s) as (λ _. M (Session × Bytes)) [
        | none ↦ crash
        | some typed ↦ do (done, out) ← login typed; pure (record typed { logged_in = done }, out)
      ]

  unfoldable pub logout_command : Session → M (Session × Bytes)
  logout_command s =
      if not s.logged_in
      then pure (s, codes "You are not logged in.\n")
      else (do (done, out) ← logout s; pure (if done then no_session else s, out))

  unfoldable pub unregister_command : Session → M (Session × Bytes)
  unregister_command s = if not s.logged_in then pure (s, codes "You are not logged in.\n") else (do
    (done, out) ← unregister s
    pure (if done then (no_session, out) else (s, out ++ codes "Error unregistering.\n")))

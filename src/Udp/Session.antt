-- ===== src/Udp/Session.antt =====
-- `handle_login`, `handle_logout` and `handle_unregister`.
pub mod Accounts
pub mod Credentials
pub mod Refines
pub mod Keeps
use auction_simulator.Prelude.{Bool, true, false, Option, none, some, if◌then◌else◌}
use auction_simulator.Text.{Bytes, codes}
use auction_simulator.Input.Udp.{read_uid_udp, read_password_udp}
use auction_simulator.World.Monad.{M, ◌>>=◌, ◌>>◌, pure, gets}
use auction_simulator.Users.{
  create_user, verify_user_exists, is_user_login, change_user_login, verify_password_correct,
  delete_user,
}

abbrev pub both : Option Bytes → Option Bytes → Option (Bytes × Bytes)
both none password = none
both (some uid) none = none
both (some uid) (some password) = some (uid, password)

-- `!read_uid_udp(buffer, uid) || !read_password_udp(buffer, password)` is the refusal.
unfoldable pub credentials : Bytes → Option (Bytes × Bytes)
unfolding read_uid_udp read_password_udp
credentials buffer = both (read_uid_udp buffer) (read_password_udp buffer)

unfoldable pub login : Bytes → Bytes → M Bytes
login uid password = do
  exists ← gets (verify_user_exists uid)
  if exists
      then (do
        correct ← verify_password_correct uid password
        logged ← gets (is_user_login uid)
        if correct
            then (if logged
                then pure (codes "RLI NOK\n")
                else change_user_login uid >> pure (codes "RLI OK\n"))
            else pure (codes "RLI NOK\n"))
      else (do
        created ← create_user uid password
        pure (if created then codes "RLI REG\n" else codes "RLI NOK\n"))

unfoldable pub handle_login : Bytes → M Bytes
handle_login buffer = elim (credentials buffer) [
  | none ↦ pure (codes "RLI ERR\n")
  | some (uid, password) ↦ login uid password
]

unfoldable pub logout : Bytes → Bytes → M Bytes
logout uid password = do
  exists ← gets (verify_user_exists uid)
  if exists
      then (do
        correct ← verify_password_correct uid password
        logged ← gets (is_user_login uid)
        if correct
            then (if logged
                then change_user_login uid >> pure (codes "RLO OK\n")
                else pure (codes "RLO NOK\n"))
            else pure (codes "RLO NOK\n"))
      else pure (codes "RLO UNR\n")

unfoldable pub handle_logout : Bytes → M Bytes
handle_logout buffer = elim (credentials buffer) [
  | none ↦ pure (codes "RLO ERR\n")
  | some (uid, password) ↦ logout uid password
]

unfoldable pub unregister : Bytes → Bytes → M Bytes
unregister uid password = do
  exists ← gets (verify_user_exists uid)
  if exists
      then (do
        correct ← verify_password_correct uid password
        logged ← gets (is_user_login uid)
        if correct
            then (if logged
                then delete_user uid >> pure (codes "RUR OK\n")
                else pure (codes "RUR NOK\n"))
            else pure (codes "RUR NOK\n"))
      else pure (codes "RUR NOK\n")

unfoldable pub handle_unregister : Bytes → M Bytes
handle_unregister buffer = elim (credentials buffer) [
  | none ↦ pure (codes "RUR ERR\n")
  | some (uid, password) ↦ unregister uid password
]

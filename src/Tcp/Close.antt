-- ===== src/Tcp/Close.antt =====
-- `handle_close`.
pub mod Laws
use auction_simulator.Prelude.{ℕ, Option, none, some, if◌then◌else◌}
use auction_simulator.Text.{Bytes, codes}
use auction_simulator.Text.Decimal.{atoi}
use auction_simulator.Socket.{Socket}
use auction_simulator.Input.Verify.{verify_close_args}
use auction_simulator.World.Monad.{M, ◌>>=◌, ◌>>◌, pure, gets}
use auction_simulator.World.Platform.{Platform}
use auction_simulator.Users.{verify_password_correct, is_user_login}
use auction_simulator.Auctions.Lifecycle.{ongoing_auction, close_auction}
use auction_simulator.Auctions.Bids.{hosted_by_self}
use auction_simulator.Auctions.Asset.{exists_auction}
use auction_simulator.Tcp.Fields
use auction_simulator.Tcp.Fields.{inner, final}

pub record CloseArgs : Type 0 where
  pub uid : Bytes
  pub password : Bytes
  pub aid : Bytes

unfoldable pub read_close : Socket → Option CloseArgs
unfolding inner final
read_close s = Fields.◌>>=◌ (inner 6 s) λ (uid, s). Fields.◌>>=◌ (inner 8 s) λ (password, s).
    Fields.◌>>=◌ (final 3 s) λ aid. some (record { uid = uid; password = password; aid = aid })

module _ ⦃p : Platform⦄ where
  -- From the test of the host on.
  unfoldable pub close_own : Bytes → ℕ → M Bytes
  close_own uid auction_id = do
    own ← hosted_by_self auction_id uid
    if own
        then (do
          ongoing ← ongoing_auction auction_id
          if ongoing
              then (do
                closed ← close_auction auction_id
                pure (if closed then codes "RCL OK\n" else codes "RCL NOK\n"))
              else pure (codes "RCL END\n"))
        else pure (codes "RCL EOW\n")

  unfoldable pub close_as : Bytes → Bytes → Bytes → M Bytes
  close_as uid password aid = do
    logged ← gets (is_user_login uid)
    if logged
        then (do
          correct ← verify_password_correct uid password
          exists ← gets (exists_auction aid)
          if correct
              then (if exists then close_own uid (atoi aid) else pure (codes "RCL EAU\n"))
              else pure (codes "RCL NOK\n"))
        else pure (codes "RCL NLG\n")

  unfoldable pub handle_close : Socket → M Bytes
  handle_close s = elim (read_close s) [
    | none ↦ pure (codes "RCL ERR\n")
    | some a ↦
        if verify_close_args a.uid a.password a.aid
        then close_as a.uid a.password a.aid
        else pure (codes "RCL ERR\n")
  ]

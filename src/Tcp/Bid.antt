-- ===== src/Tcp/Bid.antt =====
-- `handle_bid`.
pub mod Laws
use auction_simulator.Prelude.{ℕ, Option, none, some, if◌then◌else◌}
use auction_simulator.Text.{Bytes, codes}
use auction_simulator.Text.Decimal.{atoi}
use auction_simulator.Socket.{Socket}
use auction_simulator.Input.Verify.{verify_bid_args}
use auction_simulator.World.Monad.{M, ◌>>=◌, ◌>>◌, pure, gets}
use auction_simulator.World.Platform.{Platform}
use auction_simulator.Users.{verify_password_correct, is_user_login}
use auction_simulator.Auctions.Lifecycle.{ongoing_auction}
use auction_simulator.Auctions.Bids.{hosted_by_self, bid_accepted}
use auction_simulator.Tcp.Fields
use auction_simulator.Tcp.Fields.{inner, final}

pub record BidArgs : Type 0 where
  pub uid : Bytes
  pub password : Bytes
  pub aid : Bytes
  pub value : Bytes

unfoldable pub read_bid : Socket → Option BidArgs
unfolding inner final
read_bid s = Fields.◌>>=◌ (inner 6 s) λ (uid, s). Fields.◌>>=◌ (inner 8 s) λ (password, s).
    Fields.◌>>=◌ (inner 3 s) λ (aid, s).
      Fields.◌>>=◌ (final 6 s)
        λ value. some (record { uid = uid; password = password; aid = aid; value = value })

module _ ⦃p : Platform⦄ where
  -- From the test of the host on.
  unfoldable pub place_bid : Bytes → ℕ → ℕ → M Bytes
  place_bid uid auction_id value = do
    own ← hosted_by_self auction_id uid
    if own then pure (codes "RBD ILG\n") else (do
      accepted ← bid_accepted auction_id value uid
      pure (if accepted then codes "RBD ACC\n" else codes "RBD REF\n"))

  unfoldable pub bid_as : Bytes → Bytes → ℕ → ℕ → M Bytes
  bid_as uid password auction_id value = do
    logged ← gets (is_user_login uid)
    if logged
        then (do
          correct ← verify_password_correct uid password
          if correct
              then (do
                ongoing ← ongoing_auction auction_id
                if ongoing then place_bid uid auction_id value else pure (codes "RBD NOK\n"))
              else pure (codes "RBD NOK\n"))
        else pure (codes "RBD NLG\n")

  unfoldable pub handle_bid : Socket → M Bytes
  handle_bid s = elim (read_bid s) [
    | none ↦ pure (codes "RBD ERR\n")
    | some a ↦
        if verify_bid_args a.uid a.password a.aid a.value
        then bid_as a.uid a.password (atoi a.aid) (atoi a.value)
        else pure (codes "RBD ERR\n")
  ]

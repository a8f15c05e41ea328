-- ===== src/Auctions/Lifecycle.antt =====
-- `ongoing_auction` and `close_auction`: how an auction ends, by its time or by its host.
pub mod Laws
pub mod Closing
use auction_simulator.Prelude.{ℕ, ◌+◌, Bool, true, false, Option, none, some, leb, if◌then◌else◌}
use auction_simulator.Text.{Bytes}
use auction_simulator.Text.Decimal.{print3}
use auction_simulator.Text.Int.{pos, sub_ℕ}
use auction_simulator.World.{World, AuctionDir}
use auction_simulator.World.Dir.{find}
use auction_simulator.World.Monad.{M, ◌>>=◌, ◌>>◌, pure, crash, gets, modify, time}
use auction_simulator.World.Platform.{Platform}
use auction_simulator.Auctions.Files.{scan_times, scan_opened, end_text, set_auction}

module _ ⦃p : Platform⦄ where
  -- From the reading of the clock on: an auction whose time is over gets its END file.
  unfoldable pub expire : Bytes → AuctionDir → ℕ → ℕ → M Bool
  expire name d timeactive start_fulltime = do
    current_time ← time
    let closed = start_fulltime + timeactive
    let ended : AuctionDir = record d { end_file = some (end_text closed (pos timeactive)) }
    if leb closed current_time then modify (set_auction name ended) >> pure false else pure true

  -- An auction that is not there has no START file to open.
  unfoldable pub ongoing_in : Bytes → Option AuctionDir → M Bool
  unfolding expire
  ongoing_in name none = pure false
  ongoing_in name (some d) = elim d.end_file [
    | some _ ↦ pure false
    | none ↦ elim d.start_file [
      | none ↦ pure false
      | some text ↦ elim (scan_times text) [
        | none ↦ crash
        | some (timeactive, start_fulltime) ↦ expire name d timeactive start_fulltime
      ]
    ]
  ]

  unfoldable pub ongoing_auction : ℕ → M Bool
  unfolding ongoing_in
  ongoing_auction auction_id = do
    found ← gets (λ w. find (print3 auction_id) w.auctions)
    ongoing_in (print3 auction_id) found

  -- An END file that is there already is overwritten.
  unfoldable pub close_in : Bytes → Option AuctionDir → M Bool
  close_in name none = pure false
  close_in name (some d) = elim d.start_file [
    | none ↦ pure false
    | some text ↦ elim (scan_opened text) [
      | none ↦ crash
      | some start_fulltime ↦ do
        current_fulltime ← time
        modify (
            set_auction name (record d {
              end_file = some (end_text current_fulltime (sub_ℕ current_fulltime start_fulltime));
            }))
        pure true
    ]
  ]

  unfoldable pub close_auction : ℕ → M Bool
  unfolding close_in
  close_auction auction_id = do
    found ← gets (λ w. find (print3 auction_id) w.auctions)
    close_in (print3 auction_id) found

-- ===== src/Auctions/Bids.antt =====
-- `bid_accepted` and `create_bid_files`, and the test whether a user hosts an auction.
pub mod Highest
pub mod Accepting
use auction_simulator.Prelude.{
  ℕ, Bool, true, false, ◌||◌, Option, none, some, List, [], ◌∷◌, ◌++◌, ltb, ◌==◌, if◌then◌else◌,
}
use auction_simulator.Text.{Bytes, codes}
use auction_simulator.Text.Decimal.{print, print3, atoi}
use auction_simulator.Text.Int.{sub_ℕ}
use auction_simulator.World.{World, UserDir, AuctionDir}
use auction_simulator.World.Dir.{find, put, names, touch}
use auction_simulator.World.Monad.{M, ◌>>=◌, ◌>>◌, pure, crash, gets, modify, time}
use auction_simulator.World.Platform.{Platform}
use auction_simulator.Users.{set_user}
use auction_simulator.Auctions.Files.{scan_floor, bid_text, set_auction}

abbrev pub dot_txt : Bytes
dot_txt = codes ".txt"

-- The loops that look for the largest number among the names of a directory.
unfoldable pub max_of : ℕ → List Bytes → ℕ
max_of top [] = top
max_of top (name ∷ rest) = max_of (if ltb top (atoi name) then atoi name else top) rest

unfoldable pub hosts : ℕ → List Bytes → Bool
hosts auction_id [] = false
hosts auction_id (name ∷ rest) = atoi name == auction_id || hosts auction_id rest

-- With no directory of the user, `readdir` is called on a null directory.
unfoldable pub hosted_by_self : ℕ → Bytes → M Bool
unfolding hosts
hosted_by_self auction_id uid w = elim (find uid w.users) [
  | none ↦ none
  | some u ↦ some (hosts auction_id u.hosted, w)
]

module _ ⦃p : Platform⦄ where
  -- `server/users/<uid>/bidded/<aid>.txt`
  unfoldable pub note_bid : ℕ → Bytes → Option UserDir → M Bool
  note_bid auction_id uid none = pure false
  note_bid auction_id uid (some u) = do
    modify (set_user uid (record u { bidded = touch (print3 auction_id ++ dot_txt) u.bidded }))
    pure true

  unfoldable pub create_bid_in : ℕ → ℕ → Bytes → ℕ → Option AuctionDir → M Bool
  create_bid_in auction_id value uid start_fulltime none = pure false
  create_bid_in auction_id value uid start_fulltime (some d) = do
    now ← time
    let text = bid_text uid value now (sub_ℕ now start_fulltime)
    modify (
        set_auction (print3 auction_id)
          (record d { bids = put (print value ++ dot_txt) text d.bids }))
    found ← gets (λ w. find uid w.users)
    note_bid auction_id uid found

  unfoldable pub create_bid_files : ℕ → ℕ → Bytes → ℕ → M Bool
  unfolding create_bid_in
  create_bid_files auction_id value uid start_fulltime = do
    found ← gets (λ w. find (print3 auction_id) w.auctions)
    create_bid_in auction_id value uid start_fulltime found

  -- What `bid_accepted` does with the START file open.
  unfoldable pub weigh : ℕ → ℕ → Bytes → ℕ → Option (ℕ × ℕ) → M Bool
  weigh auction_id value uid max_bid none = crash
  weigh auction_id value uid max_bid (some (start_value, start_fulltime)) =
      if ltb (if ltb start_value max_bid then max_bid else start_value) value
      then create_bid_files auction_id value uid start_fulltime
      else pure false

  -- With no directory of bids, `readdir` is called on a null directory.
  unfoldable pub accept_in : ℕ → ℕ → Bytes → Option AuctionDir → M Bool
  unfolding weigh
  accept_in auction_id value uid none = crash
  accept_in auction_id value uid (some d) = elim d.start_file [
    | none ↦ pure false
    | some text ↦ weigh auction_id value uid (max_of 0 (names d.bids)) (scan_floor text)
  ]

  unfoldable pub bid_accepted : ℕ → ℕ → Bytes → M Bool
  unfolding accept_in
  bid_accepted auction_id value uid = do
    found ← gets (λ w. find (print3 auction_id) w.auctions)
    accept_in auction_id value uid found

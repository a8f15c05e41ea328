-- ===== src/Auctions/Create.antt =====
-- `get_next_auction_id` and `create_auction`.
pub mod Laws
pub mod Refused
use auction_simulator.Prelude.{
  ℕ, ◌+◌, Bool, true, false, ◌||◌, Option, none, some, List, [], ◌∷◌, ◌++◌, ltb, ◌==◌,
  if◌then◌else◌,
}
use auction_simulator.Text.{Bytes, codes, same}
use auction_simulator.Text.Decimal.{print3}
use auction_simulator.Socket.{Socket, Stored, store_file}
use auction_simulator.World.{World, UserDir, AuctionDir}
use auction_simulator.World.Dir.{find, put, names, touch}
use auction_simulator.World.Monad.{M, ◌>>=◌, ◌>>◌, pure, gets, modify, time}
use auction_simulator.World.Platform.{Platform}
use auction_simulator.Users.{set_user}
use auction_simulator.Auctions.Files.{Start, start_text, set_auction}
use auction_simulator.Auctions.Bids.{max_of, dot_txt}

unfoldable pub get_next_auction_id : World → ℕ
unfolding max_of
get_next_auction_id w = max_of 0 (names w.auctions) + 1

-- `fopen` fails on the names of the directory itself and of the one above, before anything is read.
unfoldable pub store_asset : Bytes → ℕ → Socket → AuctionDir → ℕ × AuctionDir
store_asset asset_fname fsize s d =
    let t = store_file fsize s in
    if same asset_fname (codes ".") || same asset_fname (codes "..")
    then (0, d)
    else (t.returned, record d { asset = put asset_fname t.file d.asset })

module _ ⦃p : Platform⦄ where
  -- The directory of the auction, from the first `mkdir` on.
  unfoldable pub create_dir :
      Socket → Bytes → Bytes → Bytes → ℕ → ℕ → ℕ → ℕ → Option AuctionDir → M ℕ
  create_dir s uid name asset_fname start_value timeactive fsize auction_id (some d) = pure 0
  create_dir s uid name asset_fname start_value timeactive fsize auction_id none = do
    t ← time
    let start = start_text (record {
      uid = uid;
      name = name;
      asset_fname = asset_fname;
      start_value = start_value;
      timeactive = timeactive;
      start_fulltime = t;
    })
    let opened : AuctionDir = record {
      asset = [];
      bids = [];
      start_file = some start;
      end_file = none;
    }
    let (returned, d) = store_asset asset_fname fsize s opened
    modify (set_auction (print3 auction_id) d)
    pure (if returned == 0 then 0 else auction_id)

  -- The file in the host's directory comes first.
  unfoldable pub create_for : Socket → Bytes → Bytes → Bytes → ℕ → ℕ → ℕ → ℕ → Option UserDir → M ℕ
  create_for s uid name asset_fname start_value timeactive fsize auction_id none = pure 0
  create_for s uid name asset_fname start_value timeactive fsize auction_id (some u) = do
    modify (set_user uid (record u { hosted = touch (print3 auction_id ++ dot_txt) u.hosted }))
    found ← gets (λ w. find (print3 auction_id) w.auctions)
    create_dir s uid name asset_fname start_value timeactive fsize auction_id found

  -- The result is 0 on failure, or the new identifier.
  unfoldable pub create_auction : Socket → Bytes → Bytes → Bytes → ℕ → ℕ → ℕ → M ℕ
  create_auction s uid name asset_fname start_value timeactive fsize = do
    auction_id ← gets get_next_auction_id
    found ← gets (λ w. find uid w.users)
    create_for s uid name asset_fname start_value timeactive fsize auction_id found

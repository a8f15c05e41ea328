-- ===== src/Auctions/Create/Refused.antt =====
-- `create_auction` when the asset cannot be stored.
use auction_simulator.Prelude.{ℕ, ◌≡◌, none, some, arith}
use auction_simulator.Text.{Bytes}
use auction_simulator.Text.Decimal.{print3}
use auction_simulator.Socket.{Socket, store_file, store_loop}
use auction_simulator.World.{World, UserDir, AuctionDir}
use auction_simulator.World.Dir.{find, find-put_self}
use auction_simulator.World.Monad.{reading}
use auction_simulator.World.Platform.{Platform}
use auction_simulator.Auctions.Files.{start_text}
use auction_simulator.Auctions.Create.{create_auction, get_next_auction_id, store_asset}
use auction_simulator.Auctions.Create.Laws.{
  opening, stored, opened_world, create_auction_known, same_start, same_end,
}

-- An auction that is there, with its START file and no END file.
pub record Live (auction_id : ℕ) (start : Bytes) (w : World) : Type 0 where
  pub dir : AuctionDir
  pub there : find (print3 auction_id) w.auctions ≡ some dir
  pub opened : dir.start_file ≡ some start
  pub open_still : dir.end_file ≡ none

store_file-zero : (s : Socket) → (store_file 0 s).returned ≡ 0
unfolding store_file store_loop
store_file-zero s = ground arith

store_asset-zero :
    (asset_fname : Bytes) (s : Socket) (d : AuctionDir) → (store_asset asset_fname 0 s d).0 ≡ 0
unfolding store_asset
store_asset-zero asset_fname s d = ground (arith, store_file-zero s)

module _ ⦃p : Platform⦄ where
  -- With an announced size of 0, create_auction for a host with a directory returns 0 and leaves
  -- an auction with its START file and no END file under the next identifier.
  pub create_auction-refused :
      (s : Socket) (uid name asset_fname : Bytes) (start_value timeactive : ℕ) (w : World)
      (u : UserDir)
      → find uid w.users ≡ some u
      → (w' : World) × (create_auction s uid name asset_fname start_value timeactive 0 w
          ≡ some (0, w'))
        × Live
            (get_next_auction_id w)
            (start_text (opening uid name asset_fname start_value timeactive (reading w)))
            w'
  create_auction-refused s uid name asset_fname start_value timeactive w u known = (
    opened_world s uid name asset_fname start_value timeactive 0 w u known,
    rw store_asset-zero at
        (create_auction_known s uid name asset_fname start_value timeactive 0 w u known),
    record {
      dir = (stored s uid name asset_fname start_value timeactive 0 w u known).1;
      there = find-put_self _ _ w.auctions;
      opened = same_start s uid name asset_fname start_value timeactive 0 w u known;
      open_still = same_end s uid name asset_fname start_value timeactive 0 w u known;
    },
  )

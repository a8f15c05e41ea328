-- ===== src/Auctions/Asset.antt =====
-- The asset file of an auction: `exists_auction`, `get_auc_file_info` and `send_auc_file`.
use auction_simulator.Prelude.{Bool, true, false, Option, none, some, List, [], ◌∷◌, ◌++◌, length}
use auction_simulator.Text.{Bytes, blank, newline}
use auction_simulator.Text.Decimal.{print}
use auction_simulator.World.{World, AuctionDir}
use auction_simulator.World.Dir.{find}
use auction_simulator.World.Monad.{M, ◌>>=◌, pure, crash, gets}

abbrev is_there : Option AuctionDir → Bool
is_there none = false
is_there (some d) = true

-- With an empty identifier the path is that of `server/auctions` itself.
unfoldable pub exists_auction : Bytes → World → Bool
exists_auction [] w = true
exists_auction (c ∷ auc_id) w = is_there (find (c ∷ auc_id) w.auctions)

-- `opendir("server/auctions/<aid>/asset/")`. With an empty identifier this is
-- "server/auctions//asset/", and no auction has the name "asset".
unfoldable pub asset_dir : Bytes → World → Option (List (Bytes × Bytes))
asset_dir [] w = none
asset_dir (c ∷ auc_id) w = elim (find (c ∷ auc_id) w.auctions) [
  | none ↦ none
  | some d ↦ some d.asset
]

abbrev pub file_info : Bytes → List (Bytes × Bytes) → Bytes
file_info status [] = status
file_info status ((name, content) ∷ rest) =
    status ++ blank ∷ (name ++ blank ∷ print (length content))

-- The name and the size of the first file; `readdir` is called on a null directory if there is none.
unfoldable pub get_auc_file_info : Bytes → Bytes → M Bytes
unfolding asset_dir
get_auc_file_info auc_id status = do
  dir ← gets (asset_dir auc_id)
  elim dir [ none ↦ crash | some entries ↦ pure (file_info status entries) ]

abbrev pub file_data : List (Bytes × Bytes) → Bytes
file_data [] = []
file_data ((name, content) ∷ rest) = content ++ newline ∷ []

-- What is written to the socket; `sendfile` sends the whole file.
unfoldable pub send_auc_file : Bytes → M Bytes
unfolding asset_dir
send_auc_file auc_id = do
  dir ← gets (asset_dir auc_id)
  elim dir [ none ↦ crash | some entries ↦ pure (file_data entries) ]

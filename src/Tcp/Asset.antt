-- ===== src/Tcp/Asset.antt =====
-- `handle_show_asset`.
pub mod Laws
use auction_simulator.Prelude.{Option, none, some, [], ◌∷◌, ◌++◌, if◌then◌else◌}
use auction_simulator.Text.{Bytes, codes, blank, newline}
use auction_simulator.Socket.{Socket}
use auction_simulator.Input.Verify.{verify_aid}
use auction_simulator.World.Monad.{M, ◌>>=◌, ◌>>◌, pure, gets}
use auction_simulator.Auctions.Asset.{exists_auction, get_auc_file_info, send_auc_file}
use auction_simulator.Tcp.Fields.{final}

unfoldable pub show_asset : Bytes → M Bytes
show_asset auc_id = do
  exists ← gets (exists_auction auc_id)
  if exists
      then (do
        status ← get_auc_file_info auc_id (codes "RSA OK")
        content ← send_auc_file auc_id
        pure (status ++ blank ∷ (content ++ newline ∷ [])))
      else pure (codes "RSA NOK\n")

unfoldable pub handle_show_asset : Socket → M Bytes
handle_show_asset s = elim (final 3 s) [
  | none ↦ pure (codes "RSA ERR\n")
  | some auc_id ↦ if verify_aid auc_id then show_asset auc_id else pure (codes "RSA NOK\n")
]

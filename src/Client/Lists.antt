-- ===== src/Client/Lists.antt =====
-- `listAllAuctions`, `myAuctions` and `myBids`: the request, and what is printed of the reply.
pub mod Laws
pub mod Bids
use auction_simulator.Prelude.{◌++◌, ◌∷◌, []}
use auction_simulator.Text.{Bytes, codes, newline}
use auction_simulator.Text.Pad.{print_right, snprintf}
use auction_simulator.World.Monad.{M, ◌>>=◌}
use auction_simulator.World.Platform.{Platform}
use auction_simulator.Client.Network.{connect_udp, defined}
use auction_simulator.Client.Listing.{list_answer, my_auctions_answer, my_bids_answer}

module _ ⦃p : Platform⦄ where
  unfoldable pub list_all_auctions : M Bytes
  list_all_auctions = do buffer ← connect_udp 6100 (codes "LST\n"); defined (list_answer buffer)

  unfoldable pub my_auctions : Bytes → M Bytes
  my_auctions uid = do
    buffer ← connect_udp 6024 (snprintf 12 (codes "LMA " ++ (print_right 6 uid ++ newline ∷ [])))
    defined (my_auctions_answer uid buffer)

  unfoldable pub my_bids : Bytes → M Bytes
  my_bids uid = do
    buffer ← connect_udp 1024 (snprintf 12 (codes "LMB " ++ (print_right 6 uid ++ newline ∷ [])))
    defined (my_bids_answer buffer)

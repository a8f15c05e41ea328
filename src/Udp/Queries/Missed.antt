-- ===== src/Udp/Queries/Missed.antt =====
-- `handle_list` where `exists_auctions` passes over the only auction.
use auction_simulator.Prelude.{◌≡◌, refl, ◌∙◌, false, some, [], ◌∷◌}
use auction_simulator.Text.{Bytes, codes, same}
use auction_simulator.Input.Udp.{read_command_udp}
use auction_simulator.World.{World}
use auction_simulator.World.Dir.{names}
use auction_simulator.World.Platform.{Platform}
use auction_simulator.Auctions.Listing.{exists_auctions, some_name}
use auction_simulator.Udp.Queries.{handle_list, list_all}
use auction_simulator.Udp.Dispatch.{process_udp_request, command_udp, dispatch_udp}

module _ ⦃p : Platform⦄ where
  unseen :
      (name : Bytes) (w : World)
      → p.listed (names w.auctions) ≡ name ∷ codes "." ∷ codes ".." ∷ []
      → exists_auctions w ≡ false
  unfolding exists_auctions some_name same
  unseen name w first = rw first refl

  requested : (w : World) → process_udp_request (codes "LST\n") w ≡ list_all w
  unfolding process_udp_request read_command_udp command_udp dispatch_udp handle_list same
  requested w = refl

  -- Where readdir lists one auction in front of the entries . and .., and no other, LST is
  -- answered with RLS NOK, as if there were no auction, and the world is not changed.
  pub process_udp_request-missed :
      (name : Bytes) (w : World)
      → p.listed (names w.auctions) ≡ name ∷ codes "." ∷ codes ".." ∷ []
      → process_udp_request (codes "LST\n") w ≡ some (codes "RLS NOK\n", w)
  unfolding list_all
  process_udp_request-missed name w first = requested w ∙ rw (unseen name w first) refl

-- ===== src/Tests/Handlers.antt =====
-- The theorems on handlers and on the life of an auction, at concrete requests.

use auction_simulator.Prelude.{◌≡◌, refl, true, false, none, some, [], ◌∷◌, ltb, leb, if◌then◌else◌}
use auction_simulator.Text.{codes, newline, c_string}
use auction_simulator.Socket.{Socket, read}
use auction_simulator.World.{World}
use auction_simulator.World.Dir.{find}
use auction_simulator.World.Monad.{reading, ticked}
use auction_simulator.World.Ends.{Ends}
use auction_simulator.Auctions.Files.{set_auction, start_text}
use auction_simulator.Auctions.Bids.{bid_accepted}
use auction_simulator.Auctions.Bids.Accepting.{top, bid_world, bid_accepted_known}
use auction_simulator.Auctions.Create.{create_auction, get_next_auction_id}
use auction_simulator.Auctions.Create.Laws.{
  opening, Opened, create_auction-Opened, get_next_auction_id_new,
}
use auction_simulator.Auctions.Create.Refused.{Live, create_auction-refused}
use auction_simulator.Auctions.Lifecycle.{ongoing_in, ongoing_auction, close_auction}
use auction_simulator.Auctions.Lifecycle.Laws.{
  Checked, ongoing_auction-Checked, ongoing_in_open, deadline, expired,
}
use auction_simulator.Auctions.Lifecycle.Closing.{Closed, close_auction-Closed}
use auction_simulator.Auctions.Listing.{append_states}
use auction_simulator.Auctions.Listing.Laws.{Listed, append_states-Listed}
use auction_simulator.Tcp.Fields.{final}
use auction_simulator.Tcp.Asset.{handle_show_asset}
use auction_simulator.Tcp.Asset.Laws.{handle_show_asset-nil}
use auction_simulator.Text.Decimal.{print3}
use auction_simulator.Tests.Fixtures.{
  counting, host, bidder, hall, house, host_dir, bidder_dir, sent, hall-IsAuction, house-IsSound,
  host_found, bidder_found, hall_found, chair-IsReadable,
}

abbrev bid_line : Socket
bid_line = sent (codes "BID 103091 passw0rd 001 150\n")

bid_accepted_known_example : bid_accepted 1 150 bidder house ≡ (
    if ltb (top 1 150 bidder house hall hall-IsAuction bidder_dir hall_found bidder_found) 150
    then some
        (true, bid_world 1 150 bidder house hall hall-IsAuction bidder_dir hall_found bidder_found)
    else some (false, house))
bid_accepted_known_example =
    bid_accepted_known 1 150 bidder house hall hall-IsAuction bidder_dir hall_found bidder_found

create_auction-Opened_example :
    Ends
      (create_auction
        (sent (codes "abcd\n"))
        host
        (codes "chair")
        (codes "chair.jpg")
        100
        50
        4
        house)
      (Opened (opening host (codes "chair") (codes "chair.jpg") 100 50 1012) house)
create_auction-Opened_example =
    create_auction-Opened (sent (codes "abcd\n")) host (codes "chair") (codes "chair.jpg") 100 50 4
      house host_dir host_found house-IsSound
      (record {
        uid = chair-IsReadable.uid;
        name = chair-IsReadable.name;
        asset_fname = chair-IsReadable.asset_fname;
      })

get_next_auction_id_new_example : find (print3 (get_next_auction_id house)) house.auctions ≡ none
get_next_auction_id_new_example = get_next_auction_id_new house

ongoing_auction-Checked_example : Ends (ongoing_auction 1 house) (Checked 1 house)
ongoing_auction-Checked_example = ongoing_auction-Checked 1 house house-IsSound

ongoing_in_open_example : ongoing_in (codes "001") (some hall) house ≡ (
    if leb (deadline hall-IsAuction) (reading house)
    then some (false, set_auction (codes "001") (expired hall hall-IsAuction) (ticked house))
    else some (true, ticked house))
ongoing_in_open_example = ongoing_in_open (codes "001") hall hall-IsAuction house refl

close_auction-Closed_example : Ends (close_auction 1 house) (Closed 1 house)
close_auction-Closed_example = close_auction-Closed 1 house hall house-IsSound hall_found refl

append_states-Listed_example :
    Ends
      (append_states (codes "001" ∷ []) (codes "RLS OK") house)
      (Listed (codes "001" ∷ []) (codes "RLS OK") house)
append_states-Listed_example =
    append_states-Listed (codes "001" ∷ []) (codes "RLS OK") house house-IsSound

handle_show_asset-nil_example : handle_show_asset (sent (newline ∷ [])) house ≡ none
unfolding final read c_string
handle_show_asset-nil_example = handle_show_asset-nil (sent (newline ∷ [])) house refl

create_auction-refused_example :
    (w' : World) × (create_auction
        (sent (codes "\n"))
        host
        (codes "chair")
        (codes "chair.jpg")
        100
        50
        0
        house
      ≡ some (0, w'))
    × Live
        (get_next_auction_id house)
        (start_text (opening host (codes "chair") (codes "chair.jpg") 100 50 (reading house)))
        w'
create_auction-refused_example =
    create_auction-refused (sent (codes "\n")) host (codes "chair") (codes "chair.jpg") 100 50 house
      host_dir host_found

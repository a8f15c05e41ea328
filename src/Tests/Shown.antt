-- ===== src/Tests/Shown.antt =====
-- The theorems on what the client prints of replies, at concrete lists and records.
use auction_simulator.Prelude.{◌+◌, ◌*◌, ◌≡◌, refl, some, [], ◌∷◌, arith, length}
use auction_simulator.Text.{codes, all, same}
use auction_simulator.Text.Int.{pos}
use auction_simulator.World.{World, AuctionDir}
use auction_simulator.World.Dir.{names}
use auction_simulator.World.Ends.{Ends}
use auction_simulator.Users.{is_user_login}
use auction_simulator.Auctions.Files.{BidFields, EndFields, end_text}
use auction_simulator.Auctions.Listing.{scandir, insert, append_states, fetch_auctions, strip_all}
use auction_simulator.Auctions.Sound.{IsAuction}
use auction_simulator.Udp.Dispatch.{show_record as serve_record}
use auction_simulator.Client.Commands.{show_record}
use auction_simulator.Client.Listing.Bounds.{append_states-length}
use auction_simulator.Client.Lists.{list_all_auctions, my_bids}
use auction_simulator.Client.Lists.Laws.{Shown, list_all_auctions-Shown}
use auction_simulator.Client.Lists.Bids.{my_bids-Shown}
use auction_simulator.Tests.Fixtures.{
  counting, first_bid, bidder, bidder_dir, bidder_found, hall, house, house-IsSound, chair,
  chair-IsReadable, bidder-IsWord,
}

my_bids-Shown_example :
    Ends
      (my_bids bidder house)
      (Shown (fetch_auctions bidder_dir.bidded) (codes "Your current bids:\n") house)
unfolding all is_user_login fetch_auctions strip_all scandir insert
my_bids-Shown_example =
    my_bids-Shown bidder bidder_dir house house-IsSound (record { digits = refl; six = refl })
      (rw bidder_found refl) bidder_found (record { plain = refl; three = refl }, tt) (omega arith)
      (omega arith) ((omega arith, omega arith), tt)

append_states-length_example :
    Ends
      (append_states (codes "001" ∷ []) (codes "RMB OK") house)
      (λ reply w'. length reply ≡ length (codes "RMB OK") + 6 * length (codes "001" ∷ []))
append_states-length_example =
    append_states-length (codes "001" ∷ []) (codes "RMB OK") house house-IsSound (refl, tt)

list_all_auctions-Shown_example :
    Ends
      (list_all_auctions house)
      (Shown (scandir (names house.auctions)) (codes "Auctions currently open:\n") house)
unfolding same
list_all_auctions-Shown_example =
    list_all_auctions-Shown house house-IsSound
      (unfold all in (record { plain = refl; three = refl }, tt)) (omega arith) (omega arith)

abbrev placed : BidFields
placed = record {
  uid = bidder;
  bid_value = 120;
  datetime1 = counting.date 1005;
  datetime2 = counting.hour 1005;
  bidtime = pos 5;
}

-- The same hall behind its last second.
abbrev late_house : World
late_house = record house { now = 2000; ticks = [] }

abbrev over_hall : AuctionDir
over_hall = record hall { end_file = some (end_text 1050 (pos 50)) }

abbrev over_house : World
over_house = record late_house { auctions = (codes "001", over_hall) ∷ [] }

abbrev chair_end : EndFields
chair_end = record {
  datetime1 = counting.date 1050;
  datetime2 = counting.hour 1050;
  end_sec_time = pos 50;
}

abbrev hall_known : IsAuction hall
hall_known = record {
  start = chair;
  bid_list = first_bid ∷ [];
  readable = chair-IsReadable;
  opened = refl;
  listed = refl;
  rising = (omega arith, tt);
  words = (bidder-IsWord, tt);
  ending = tt;
}

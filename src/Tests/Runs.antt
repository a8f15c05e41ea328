-- ===== src/Tests/Runs.antt =====
-- A run of the server by evaluation, and the theorems on runs at it.
use auction_simulator.Prelude.{◌≡◌, refl, true, false, none, Option, Bool, some, [], ◌∷◌}
use auction_simulator.Text.{Bytes, codes, same, c_string}
use auction_simulator.Text.Int.{pos}
use auction_simulator.Text.Decimal.{print3, atoi}
use auction_simulator.Text.Scan.{scan_string}
use auction_simulator.Socket.{Socket, read, read_field}
use auction_simulator.Input.Verify.{verify_bid_args}
use auction_simulator.Input.Udp.{CommandEnd, read_command_udp, read_uid_udp, read_password_udp}
use auction_simulator.World.{World, AuctionDir}
use auction_simulator.World.Dir.{find, put}
use auction_simulator.World.Ends.{Ends}
use auction_simulator.Users.{
  is_user_login, verify_user_exists, create_user, verify_password_correct,
}
use auction_simulator.Auctions.Files.{end_text}
use auction_simulator.Auctions.Sound.{IsAuction, IsSound}
use auction_simulator.Auctions.Lifecycle.{ongoing_auction}
use auction_simulator.Udp.Dispatch.{process_udp_request, command_udp, dispatch_udp}
use auction_simulator.Udp.Session.{handle_login, credentials, login}
use auction_simulator.Tcp.Bid.{handle_bid, read_bid, bid_as}
use auction_simulator.Tcp.Dispatch.{process_tcp_request, dispatch_tcp}
use auction_simulator.Server.{Run, begun, next, connection, datagram}
use auction_simulator.Server.Laws.{empty_world, Run-over, Run-IsSound}
use auction_simulator.Tests.Fixtures.{
  counting, hall, house, host, secret, hall-IsAuction, house-IsSound, sent,
}

abbrev over_text : Bytes
over_text = end_text 1010 (pos 10)

abbrev closed_hall : AuctionDir
closed_hall = record hall { end_file = some over_text }

abbrev closed_house : World
closed_house = record house { auctions = (codes "001", closed_hall) ∷ [] }

closed_hall-IsAuction : IsAuction closed_hall
closed_hall-IsAuction = record {
  start = hall-IsAuction.start;
  bid_list = hall-IsAuction.bid_list;
  readable = hall-IsAuction.readable;
  opened = hall-IsAuction.opened;
  listed = hall-IsAuction.listed;
  rising = hall-IsAuction.rising;
  words = hall-IsAuction.words;
  ending = (1010, pos 10, refl);
}

closed_house-IsSound : IsSound closed_house
closed_house-IsSound = record {
  users = house-IsSound.users;
  auctions = (closed_hall-IsAuction, tt);
}

abbrev late_bid : Socket
late_bid = sent (codes "BID 103091 passw0rd 001 150\n")

-- A bid on a closed auction is refused.
late_bid_reply : process_tcp_request late_bid closed_house ≡ some (codes "RBD NOK\n", closed_house)
unfolding process_tcp_request dispatch_tcp handle_bid read_bid bid_as read_field read same
    verify_bid_args is_user_login verify_password_correct ongoing_auction print3 find atoi
    scan_string c_string
late_bid_reply = refl

late-Run : Run closed_house closed_house
late-Run = next begun (connection late_bid (codes "RBD NOK\n") late_bid_reply)

Run-over_example :
    (d' : AuctionDir) × (find (codes "001") closed_house.auctions ≡ some d')
    × (d'.end_file ≡ some over_text)
    × (d'.start_file ≡ closed_hall.start_file)
    × (d'.bids ≡ closed_hall.bids)
unfolding find same
Run-over_example =
    Run-over (codes "001") closed_hall over_text closed_house-IsSound late-Run refl refl

abbrev is_list : Option (Bytes × CommandEnd) → Bool
is_list none = false
is_list (some (command, how)) = same command (codes "LST")

abbrev registered : World
registered = record {
  users = (host, record { hosted = []; bidded = []; pass = some secret; login = true }) ∷ [];
  auctions = [];
  now = 1000;
  ticks = [];
}

-- The first login of a user registers the user.
login_reply :
    process_udp_request (codes "LIN 102664 passw0rd\n") (empty_world 1000)
    ≡ some (codes "RLI REG\n", registered)
unfolding process_udp_request read_command_udp command_udp dispatch_udp handle_login credentials
    read_uid_udp read_password_udp login verify_user_exists create_user same find put
login_reply = refl

first-Run : Run (empty_world 1000) registered
first-Run = next begun (datagram (codes "LIN 102664 passw0rd\n") (codes "RLI REG\n") login_reply)

Run-IsSound_example : IsSound registered
Run-IsSound_example = Run-IsSound 1000 first-Run

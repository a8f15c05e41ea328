-- ===== src/Tests/Fixtures.antt =====
-- A platform, and the worlds and requests that the runs use.
use mathlib.Core.List.Perm
use mathlib.Core.Path.{subst}
use mathlib.Core.Option.{some-injective}
use auction_simulator.Text.Int.{pos}
use auction_simulator.Input.Verify.{verify_asset_fname}
use auction_simulator.Input.Verify.Laws.{verify_asset_fname-IsWord}
use auction_simulator.Users.Laws.{IsUser}
use auction_simulator.Auctions.Files.{Start, start_text}
use auction_simulator.Auctions.Files.Laws.{IsReadable}
use auction_simulator.Auctions.Sound.{Bid, bid_file, IsAuction, IsSound}
use auction_simulator.Prelude.{refl, ◌/◌, ◌%◌, ◌≡◌, true, Option, none, some, List, [], ◌∷◌, arith}
use auction_simulator.Text.{Bytes, codes, same}
use auction_simulator.World.Dir.{find}
use auction_simulator.Text.Decimal.{print, print3}
use auction_simulator.Text.Scan.{IsWord, print-IsWord}
use auction_simulator.Socket.{Socket}
use auction_simulator.World.{World, UserDir, AuctionDir}
use auction_simulator.World.Monad.{M}
use auction_simulator.World.Platform.{Platform}

-- Days and seconds of the day, in place of a calendar.
instance abbrev pub counting : Platform
counting = record {
  date = λ t. print (t / 86400);
  hour = λ t. print (t % 86400);
  readdir = λ entries. entries;
  listed = λ names. codes "." ∷ codes ".." ∷ names;
  date-IsWord = λ t. print-IsWord (t / 86400);
  hour-IsWord = λ t. print-IsWord (t % 86400);
  readdir-perm = λ entries. Perm.refl entries;
  listed-perm = λ names. Perm.refl _;
}

abbrev pub fresh : World
fresh = record { users = []; auctions = []; now = 1000; ticks = [] }

-- The reply, and the world after it.
abbrev pub answer : {A : Type 0} → M A → World → Option A
answer m w = elim (m w) [ none ↦ none | some (a, _) ↦ some a ]

abbrev pub after : {A : Type 0} → M A → World → World
after m w = elim (m w) [ none ↦ w | some (_, w') ↦ w' ]

abbrev pub sent : Bytes → Socket
sent input = record { input = input; limits = [] }

abbrev pub host : Bytes
host = codes "102664"

abbrev pub bidder : Bytes
bidder = codes "103091"

abbrev pub secret : Bytes
secret = codes "passw0rd"

abbrev pub chair : Start
chair = record {
  uid = host;
  name = codes "chair";
  asset_fname = codes "chair.jpg";
  start_value = 100;
  timeactive = 50;
  start_fulltime = 1000;
}

abbrev pub first_bid : Bid
first_bid = record { uid = bidder; value = 120; placed = 1005; seconds = pos 5 }

abbrev pub hall : AuctionDir
hall = record {
  asset = (codes "chair.jpg", codes "abcd") ∷ [];
  bids = bid_file first_bid ∷ [];
  start_file = some (start_text chair);
  end_file = none;
}

abbrev pub host_dir : UserDir
host_dir = record { hosted = codes "001.txt" ∷ []; bidded = []; pass = some secret; login = true }

abbrev pub bidder_dir : UserDir
bidder_dir = record { hosted = []; bidded = codes "001.txt" ∷ []; pass = some secret; login = true }

-- A host and a bidder, and an auction with one bid, at the second 1010.
abbrev pub house : World
house = record {
  users = (host, host_dir) ∷ (bidder, bidder_dir) ∷ [];
  auctions = (codes "001", hall) ∷ [];
  now = 1010;
  ticks = 2 ∷ [];
}

pub host-IsWord : IsWord host
unfolding verify_asset_fname
host-IsWord = verify_asset_fname-IsWord host refl

pub bidder-IsWord : IsWord bidder
unfolding verify_asset_fname
bidder-IsWord = verify_asset_fname-IsWord bidder refl

pub secret-IsWord : IsWord secret
unfolding verify_asset_fname
secret-IsWord = verify_asset_fname-IsWord secret refl

pub chair-IsReadable : IsReadable chair
unfolding verify_asset_fname
chair-IsReadable = record {
  uid = host-IsWord;
  name = verify_asset_fname-IsWord (codes "chair") refl;
  asset_fname = verify_asset_fname-IsWord (codes "chair.jpg") refl;
}

pub hall-IsAuction : IsAuction hall
hall-IsAuction = record {
  start = chair;
  bid_list = first_bid ∷ [];
  readable = chair-IsReadable;
  opened = refl;
  listed = refl;
  rising = (omega arith, tt);
  words = (bidder-IsWord, tt);
  ending = tt;
}

member-IsUser :
    (hosted bidded : List Bytes)
    → IsUser (record { hosted = hosted; bidded = bidded; pass = some secret; login = true })
member-IsUser hosted bidded = record {
  registered = λ _ missing. cc;
  word = λ t e. subst IsWord (some-injective _ _ e) secret-IsWord;
}

pub house-IsSound : IsSound house
house-IsSound = record {
  users = (member-IsUser (codes "001.txt" ∷ []) [], (member-IsUser [] (codes "001.txt" ∷ []), tt));
  auctions = (hall-IsAuction, tt);
}

pub host_found : find host house.users ≡ some host_dir
unfolding find same
host_found = refl

pub bidder_found : find bidder house.users ≡ some bidder_dir
unfolding find same
bidder_found = refl

pub hall_found : find (print3 1) house.auctions ≡ some hall
unfolding find same print3
hall_found = refl

-- ===== src/Client/Record/Served.antt =====
-- The record that the server sends for an auction is one that `showRecord` prints.

use auction_simulator.Prelude.{
  ℕ, ◌≡◌, sym, ◌∙◌, ap, Bool, Option, none, some, List, [], ◌++◌, append-nil,
}
use auction_simulator.Text.{Bytes}
use auction_simulator.Text.Decimal.{print3, atoi, atoi-print3}
use auction_simulator.World.{World, AuctionDir}
use auction_simulator.World.Dir.{find}
use auction_simulator.World.Platform.{Platform}
use auction_simulator.World.Ends.{Ends}
use auction_simulator.Auctions.Files.{StartFields, BidFields, EndFields}
use auction_simulator.Auctions.Lifecycle.{ongoing_auction}
use auction_simulator.Auctions.Record.{start_part, read_start_file, read_end_file}
use auction_simulator.Auctions.Sound.{IsSound}
use auction_simulator.Client.Record.Reply.{parts, Holds}

-- What an END file holds: nothing where there is none.
abbrev pub Closing : Option Bytes → Option EndFields → Type 0
Closing none none = Unit
Closing none (some e) = ⊥
Closing (some text) none = ⊥
Closing (some text) (some e) = read_end_file text ≡ some e

pub atoi_name : (n : ℕ) → atoi (print3 n) ≡ n
atoi_name n = ap atoi (sym (append-nil (print3 n))) ∙ atoi-print3 n [] tt

module _ ⦃p : Platform⦄ where
  module _ (auc_id : ℕ) (start : StartFields) (bids : List BidFields) (e : Option EndFields)
      (ongoing : Bool) (d d' : AuctionDir) (w w' : World) {text : Bytes} (s : IsSound w)
      (found : find (print3 auc_id) w.auctions ≡ some d) (opened : d.start_file ≡ some text)
      (started : read_start_file text ≡ some start) (bidden : Holds (p.readdir d.bids) bids)
      (tested : ongoing_auction auc_id w ≡ some (ongoing, w'))
      (after : find (print3 auc_id) w'.auctions ≡ some d') (ended : Closing d'.end_file e) where
    abbrev listing : Bytes → Bytes
    listing status = (status ++ start_part start) ++ parts bids

    abbrev Leaves : Bytes → Bytes → World → Type 0
    Leaves reply got v = (got ≡ reply) × (v ≡ w')

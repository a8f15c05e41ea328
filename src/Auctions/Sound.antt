-- ===== src/Auctions/Sound.antt =====
-- The auctions that the server writes: each has a START file that can be read and bid files that hold
-- rising values above the start value, in the order of the bids.
use mathlib.Core.List.{map}
use auction_simulator.Prelude.{ℕ, ◌<◌, ◌≤◌, ◌≡◌, Option, none, some, List, [], ◌∷◌, ◌++◌, All}
use auction_simulator.Text.{Bytes}
use auction_simulator.Text.Decimal.{print}
use auction_simulator.Text.Int.{ℤ}
use auction_simulator.Text.Scan.{IsWord}
use auction_simulator.World.{World, AuctionDir}
use auction_simulator.World.Dir.{find, Values}
use auction_simulator.World.Platform.{Platform}
use auction_simulator.Users.Laws.{IsUser}
use auction_simulator.Auctions.Files.{Start, start_text, end_text, bid_text}
use auction_simulator.Auctions.Files.Laws.{IsReadable}
use auction_simulator.Auctions.Bids.{dot_txt}

-- A bid as the server keeps it.
pub record Bid : Type 0 where
  pub uid : Bytes
  pub value : ℕ
  pub placed : ℕ
  pub seconds : ℤ

abbrev pub bid_name : ℕ → Bytes
bid_name value = print value ++ dot_txt

abbrev pub Rising : ℕ → List Bid → Type 0
Rising floor [] = Unit
Rising floor (b ∷ bs) = (floor < b.value) × Rising b.value bs

-- The value that a new bid must exceed.
abbrev pub top_bid : ℕ → List Bid → ℕ
top_bid floor [] = floor
top_bid floor (b ∷ bs) = top_bid b.value bs

abbrev pub BidWords : List Bid → Type 0
BidWords = All (λ b. IsWord b.uid)

module _ ⦃p : Platform⦄ where
  abbrev pub bid_file : Bid → Bytes × Bytes
  bid_file b = (bid_name b.value, bid_text b.uid b.value b.placed b.seconds)

  abbrev pub IsEnd : Option Bytes → Type 0
  IsEnd none = Unit
  IsEnd (some text) = (closed : ℕ) × (seconds : ℤ) × (text ≡ end_text closed seconds)

  pub record IsAuction (d : AuctionDir) : Type 0 where
    pub start : Start
    pub bid_list : List Bid
    pub readable : IsReadable start
    pub opened : d.start_file ≡ some (start_text start)
    pub listed : d.bids ≡ map bid_file bid_list
    pub rising : Rising start.start_value bid_list
    pub words : BidWords bid_list
    pub ending : IsEnd d.end_file

  pub record IsSound (w : World) : Type 0 where
    pub users : Values IsUser w.users
    pub auctions : Values IsAuction w.auctions

-- How an auction may change: its START file stays, an END file is never written again, bids are only
-- added at the end, and none once there is an END file.
pub record Later (d d' : AuctionDir) : Type 0 where
  pub same_start : d'.start_file ≡ d.start_file
  pub same_end : (text : Bytes) → d.end_file ≡ some text → d'.end_file ≡ some text
  pub added : (more : List (Bytes × Bytes)) × (d'.bids ≡ d.bids ++ more)
  pub frozen : (text : Bytes) → d.end_file ≡ some text → d'.bids ≡ d.bids

-- No auction disappears, each is later than it was, and the clock does not go back.
pub record Grows (w w' : World) : Type 0 where
  pub auction :
      (name : Bytes) (d : AuctionDir)
      → find name w.auctions ≡ some d
      → (d' : AuctionDir) × (find name w'.auctions ≡ some d') × Later d d'
  pub clock : w.now ≤ w'.now

module _ ⦃p : Platform⦄ where
  -- A sound world that has grown from another.
  pub record Kept (w w' : World) : Type 0 where
    pub sound : IsSound w'
    pub grows : Grows w w'

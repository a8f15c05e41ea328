-- ===== src/Auctions/Record.antt =====
-- `get_auc_info`: the record of an auction, put together from its START, bid and END files. Those of
-- the server can be read; a conversion that fails would use a variable that is unset or left over, and
-- one that is too long for its array would write behind it. The room of the caller's `status` is
-- tested by the caller, `show_record`, once the text is complete.
pub mod Laws
use auction_simulator.Prelude.{
  ℕ, Option, none, some, List, [], ◌∷◌, ◌++◌, Bool, ◌&&◌, leb, length, if◌then◌else◌,
}
use auction_simulator.Text.{Bytes, blank}
use auction_simulator.Text.Decimal.{print, print3}
use auction_simulator.Text.Int.{print_int}
use auction_simulator.World.{AuctionDir}
use auction_simulator.World.Dir.{find}
use auction_simulator.World.Monad.{M, ◌>>=◌, pure, crash, gets}
use auction_simulator.World.Platform.{Platform}
use auction_simulator.Auctions.Files.{
  StartFields, BidFields, EndFields, scan_start, scan_bid, scan_end,
}
use auction_simulator.Auctions.Lifecycle.{ongoing_auction}

-- " %s %s %s %d %s %ld"
unfoldable pub start_part : StartFields → Bytes
start_part s =
    blank
    ∷ (s.uid
        ++ blank
          ∷ (s.name
              ++ blank
                ∷ (s.asset_fname
                    ++ blank
                      ∷ (print s.start_value
                          ++ blank
                            ∷ (s.datetime1
                                ++ blank ∷ (s.datetime2 ++ blank ∷ print s.timeactive))))))

-- " B %s %d %s %ld"
unfoldable pub bid_part : BidFields → Bytes
bid_part b =
    blank
    ∷ b'B'
    ∷ blank
    ∷ (b.uid
        ++ blank
          ∷ (print b.bid_value
              ++ blank ∷ (b.datetime1 ++ blank ∷ (b.datetime2 ++ blank ∷ print_int b.bidtime))))

-- " E %s %ld"
unfoldable pub end_part : EndFields → Bytes
end_part e =
    blank
    ∷ b'E'
    ∷ blank
    ∷ (e.datetime1 ++ blank ∷ (e.datetime2 ++ blank ∷ print_int e.end_sec_time))

-- The conversions into `uid[7]`, `name[11]`, `asset_fname[25]`, `datetime1[11]` and `datetime2[9]`.
abbrev pub start_fits : StartFields → Bool
start_fits s =
    leb (length s.uid) 6
    && leb (length s.name) 10
    && leb (length s.asset_fname) 24
    && leb (length s.datetime1) 10
    && leb (length s.datetime2) 8

abbrev pub bid_fits : BidFields → Bool
bid_fits b = leb (length b.uid) 6 && leb (length b.datetime1) 10 && leb (length b.datetime2) 8

abbrev pub end_fits : EndFields → Bool
end_fits e = leb (length e.datetime1) 10 && leb (length e.datetime2) 8

abbrev within : {A : Type 0} → (A → Bool) → Option A → Option A
within fits none = none
within fits (some a) = if fits a then some a else none

unfoldable pub read_start_file : Bytes → Option StartFields
read_start_file text = within start_fits (scan_start text)

unfoldable pub read_bid_file : Bytes → Option BidFields
read_bid_file text = within bid_fits (scan_bid text)

unfoldable pub read_end_file : Bytes → Option EndFields
read_end_file text = within end_fits (scan_end text)

-- The loop over the directory of bids.
unfoldable pub bid_parts : List (Bytes × Bytes) → Bytes → Option Bytes
unfolding bid_part
bid_parts [] status = some status
bid_parts ((name, text) ∷ rest) status = elim (read_bid_file text) [
  | none ↦ none
  | some b ↦ bid_parts rest (status ++ bid_part b)
]

unfoldable pub add_end : Bytes → Option AuctionDir → M Bytes
unfolding end_part
add_end status none = pure status
add_end status (some d) = elim d.end_file [
  | none ↦ pure status
  | some text ↦ elim (read_end_file text) [ none ↦ crash | some e ↦ pure (status ++ end_part e) ]
]

module _ ⦃p : Platform⦄ where
  unfoldable pub info_in : ℕ → Bytes → StartFields → AuctionDir → M Bytes
  info_in auc_id status start d = elim (bid_parts (p.readdir d.bids) (status ++ start_part start)) [
    | none ↦ crash
    | some listed ↦ do
      ongoing ← ongoing_auction auc_id
      found ← gets (λ w. find (print3 auc_id) w.auctions)
      if ongoing then pure listed else add_end listed found
  ]

  unfoldable pub info_of : ℕ → Bytes → Option AuctionDir → M Bytes
  info_of auc_id status none = pure status
  info_of auc_id status (some d) = elim d.start_file [
    | none ↦ pure status
    | some text ↦ elim (read_start_file text) [
      | none ↦ crash
      | some start ↦ info_in auc_id status start d
    ]
  ]

  unfoldable pub get_auc_info : ℕ → Bytes → M Bytes
  get_auc_info auc_id status = do
    found ← gets (λ w. find (print3 auc_id) w.auctions)
    info_of auc_id status found

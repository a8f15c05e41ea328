-- ===== src/Client/Record/Reply.antt =====
-- The reply that `get_auc_info` puts together, as tokens with one space before each.
use auction_simulator.Prelude.{
  ◌≡◌, refl, sym, ◌∙◌, ap, Option, none, some, List, [], ◌∷◌, ◌++◌, append_assoc, append-nil,
}
use auction_simulator.Text.{Bytes, codes, newline, blank}
use auction_simulator.Text.Decimal.{print}
use auction_simulator.Text.Int.{print_int}
use auction_simulator.Auctions.Files.{StartFields, BidFields, EndFields}
use auction_simulator.Auctions.Record.{start_part, bid_part, end_part, bid_parts, read_bid_file}
use auction_simulator.Client.Buffer.Lines.{line}
use auction_simulator.Client.Record.Shows.{end_tokens, sections}

-- The tokens of a record behind "RRC OK" and the host.
abbrev pub record_tokens : StartFields → List BidFields → Option EndFields → List Bytes
record_tokens s bids e =
    s.name
    ∷ s.asset_fname
    ∷ print s.start_value
    ∷ s.datetime1
    ∷ s.datetime2
    ∷ print s.timeactive
    ∷ sections bids e

abbrev pub parts : List BidFields → Bytes
parts [] = []
parts (b ∷ bs) = bid_part b ++ parts bs

abbrev pub ends : Option EndFields → Bytes
ends none = []
ends (some e) = end_part e

-- The reply to SRC for an auction with a START file, bids and perhaps an END file.
abbrev pub record_reply : StartFields → List BidFields → Option EndFields → Bytes
record_reply s bids e = (((codes "RRC OK" ++ start_part s) ++ parts bids) ++ ends e) ++ newline ∷ []

-- The bid files hold these bids.
abbrev pub Holds : List (Bytes × Bytes) → List BidFields → Type 0
Holds [] [] = Unit
Holds [] (b ∷ bs) = ⊥
Holds (f ∷ fs) [] = ⊥
Holds ((name, text) ∷ fs) (b ∷ bs) = (read_bid_file text ≡ some b) × Holds fs bs

pub bid_parts-parts :
    (files : List (Bytes × Bytes)) (bids : List BidFields) (status : Bytes)
    → Holds files bids
    → bid_parts files status ≡ some (status ++ parts bids)
unfolding bid_parts
bid_parts-parts [] [] status h = ap some (sym (append-nil status))
bid_parts-parts [] (b ∷ bs) status h = absurd h
bid_parts-parts (f ∷ fs) [] status h = absurd h
bid_parts-parts ((name, text) ∷ fs) (b ∷ bs) status (h, hs) =
    rw (h, bid_parts)
      (bid_parts-parts fs bs (status ++ bid_part b) hs
        ∙ ap some (append_assoc status (bid_part b) (parts bs)))

abbrev spaced : List Bytes → Bytes
spaced [] = []
spaced (t ∷ ts) = blank ∷ (t ++ spaced ts)

line-spaced : (t : Bytes) (ts : List Bytes) → line t ts ≡ t ++ (spaced ts ++ newline ∷ [])
unfolding line
line-spaced t [] = refl
line-spaced t (u ∷ ts) =
    ap (λ l. t ++ blank ∷ l) (line-spaced u ts ∙ sym (append_assoc u (spaced ts) (newline ∷ [])))

bid_part-spaced :
    (b : BidFields) (ts : List Bytes)
    → spaced (
        codes "B"
        ∷ b.uid
        ∷ print b.bid_value
        ∷ b.datetime1
        ∷ b.datetime2
        ∷ print_int b.bidtime
        ∷ ts)
      ≡ bid_part b ++ spaced ts
unfolding bid_part
bid_part-spaced b ts = simp append_assoc

ends-spaced : (e : Option EndFields) → spaced (end_tokens e) ≡ ends e
unfolding end_part
ends-spaced none = refl
ends-spaced (some e) = simp append-nil

sections-spaced :
    (bids : List BidFields) (e : Option EndFields) → spaced (sections bids e) ≡ parts bids ++ ends e
sections-spaced [] e = ends-spaced e
sections-spaced (b ∷ bs) e =
    bid_part-spaced b (sections bs e)
    ∙ ap (λ t. bid_part b ++ t) (sections-spaced bs e)
    ∙ sym (append_assoc (bid_part b) (parts bs) (ends e))

start_part-spaced :
    (s : StartFields) (ts : List Bytes)
    → spaced (
        s.uid
        ∷ s.name
        ∷ s.asset_fname
        ∷ print s.start_value
        ∷ s.datetime1
        ∷ s.datetime2
        ∷ print s.timeactive
        ∷ ts)
      ≡ start_part s ++ spaced ts
unfolding start_part
start_part-spaced s ts = simp append_assoc

regroup : (o a b c d : Bytes) → (((o ++ a) ++ b) ++ c) ++ d ≡ o ++ ((a ++ (b ++ c)) ++ d)
regroup o a b c d = simp append_assoc

pub record_reply-line :
    (s : StartFields) (bids : List BidFields) (e : Option EndFields)
    → record_reply s bids e ≡ codes "RRC OK " ++ line s.uid (record_tokens s bids e)
record_reply-line s bids e =
    regroup (codes "RRC OK") (start_part s) (parts bids) (ends e) (newline ∷ [])
    ∙ ap (λ t. codes "RRC OK" ++ ((start_part s ++ t) ++ newline ∷ []))
        (sym (sections-spaced bids e))
    ∙ ap (λ t. codes "RRC OK" ++ (t ++ newline ∷ [])) (sym (start_part-spaced s (sections bids e)))
    ∙ ap (λ t. codes "RRC OK" ++ blank ∷ t)
        (append_assoc s.uid (spaced (record_tokens s bids e)) (newline ∷ [])
          ∙ sym (line-spaced s.uid (record_tokens s bids e)))

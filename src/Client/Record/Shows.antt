-- ===== src/Client/Record/Shows.antt =====
-- `showRecord` prints the record that `get_auc_info` writes, field by field.
use auction_simulator.Prelude.{
  ℕ, suc, ◌<◌, ◌≡◌, refl, sym, ◌∙◌, ap, Bool, true, false, Option, none, some, List, [], ◌∷◌, ◌++◌,
  arith, append_assoc, append-nil, length, All,
}
use auction_simulator.Text.{Bytes, codes, newline, all}
use auction_simulator.Text.Decimal.{print}
use auction_simulator.Text.Int.{print_int}
use auction_simulator.Auctions.Files.{BidFields, EndFields}
use auction_simulator.Socket.Fields.{is_plain}
use auction_simulator.Client.Record.{
  Part, section, bidder_uid, bid_value, bid_date, bid_sec_time, end_date, end_sec_time, print_token,
  labelled, labelled_pair, closing_title, bid_heading,
}
use auction_simulator.Client.Record.Laws.{Fits, go, Prints, one, last, two}

-- The tokens of a record behind the duration.
abbrev pub end_tokens : Option EndFields → List Bytes
end_tokens none = []
end_tokens (some e) = codes "E" ∷ e.datetime1 ∷ e.datetime2 ∷ print_int e.end_sec_time ∷ []

abbrev pub sections : List BidFields → Option EndFields → List Bytes
sections [] e = end_tokens e
sections (b ∷ bs) e =
    codes "B"
    ∷ b.uid
    ∷ print b.bid_value
    ∷ b.datetime1
    ∷ b.datetime2
    ∷ print_int b.bidtime
    ∷ sections bs e

-- The lines for a bid, with what stands above them.
abbrev pub bid_lines : Bytes → BidFields → Bytes
bid_lines above b =
    above
    ++ (labelled (codes "Bidder UID: ") b.uid
        ++ (labelled (codes "Bid Value: ") (print b.bid_value)
            ++ (labelled_pair (codes "Bid Date-Time: ") b.datetime1 b.datetime2
                ++ labelled (codes "Bid Sec Time: ") (print_int b.bidtime))))

abbrev pub end_lines : Option EndFields → Bytes
end_lines none = []
end_lines (some e) =
    closing_title
    ++ (labelled_pair (codes "End Date-Time: ") e.datetime1 e.datetime2
        ++ labelled (codes "End Sec Time: ") (print_int e.end_sec_time))

abbrev pub section_lines : Bytes → List BidFields → Option EndFields → Bytes
section_lines above [] e = end_lines e
section_lines above (b ∷ bs) e = bid_lines above b ++ section_lines (newline ∷ []) bs e

-- The texts of the fields fit the client's arrays.
pub record BidFits (b : BidFields) : Type 0 where
  pub uid : Fits b.uid
  pub value : Fits (print b.bid_value)
  pub date : Fits b.datetime1
  pub hour : Fits b.datetime2
  pub time : Fits (print_int b.bidtime)
  pub time_short : length (print_int b.bidtime) < 24

pub record EndsFit (e : EndFields) : Type 0 where
  pub date : Fits e.datetime1
  pub hour : Fits e.datetime2
  pub time : Fits (print_int e.end_sec_time)
  pub time_short : length (print_int e.end_sec_time) < 24

abbrev pub EndFits : Option EndFields → Type 0
EndFits none = Unit
EndFits (some e) = EndsFit e

letter-Fits : (c : ℕ) → all is_plain (c ∷ []) ≡ true → Fits (c ∷ [])
letter-Fits c h = record { plain = h; short = omega arith; filled = omega arith }

B_fits : Fits (codes "B")
unfolding all
B_fits = letter-Fits b'B' refl

E_fits : Fits (codes "E")
unfolding all
E_fits = letter-Fits b'E' refl

-- The closing lines, from the token before them on.
go-end :
    (n : ℕ) (before t : Bytes) (e : Option EndFields) (part : Part) (first : Bool)
    (out out' : Bytes)
    → Prints t part first out section first out'
    → Fits t
    → length t < 24
    → EndFits e
    → go (suc (suc (suc (suc n)))) before t (end_tokens e) part first out
      ≡ some (out' ++ end_lines e)
unfolding print_token
go-end n before t none part first out out' prints h short ok =
    last (suc (suc (suc n))) before t part section first first out out'
      (λ buffer. prints buffer none) h short
    ∙ ap some (sym (append-nil out'))
go-end n before t (some e) part first out out' prints h short ok =
    let dated =
      (out' ++ closing_title) ++ labelled_pair (codes "End Date-Time: ") e.datetime1 e.datetime2 in
    one (suc (suc (suc n))) before t part section first first out out' _ _ prints h
    ∙ one (suc (suc n)) _ (codes "E") section end_date first first out' out' _ _ (λ buffer j. refl)
        E_fits
    ∙ two (suc n) _ e.datetime1 end_date end_sec_time first first out' dated _ _ _
        (λ buffer i k reads. ground (arith, reads)) ok.date ok.hour
    ∙ last n _ (print_int e.end_sec_time) end_sec_time end_sec_time first first dated
        (dated ++ labelled (codes "End Sec Time: ") (print_int e.end_sec_time)) (λ buffer. refl)
        ok.time ok.time_short
    ∙ ap some (
        append_assoc (out' ++ closing_title)
          (labelled_pair (codes "End Date-Time: ") e.datetime1 e.datetime2) _
        ∙ append_assoc out' closing_title _)

-- The rounds from the token before the sections on.
abbrev pub rounds : ℕ → List BidFields → ℕ
rounds n [] = suc (suc (suc (suc n)))
rounds n (b ∷ bs) = suc (suc (suc (suc (suc (rounds n bs)))))

regroup :
    (o h u v d t s : Bytes)
    → ((((o ++ (h ++ u)) ++ v) ++ d) ++ t) ++ s ≡ o ++ ((h ++ (u ++ (v ++ (d ++ t)))) ++ s)
regroup o h u v d t s = simp append_assoc

-- The bids and the closing lines.
pub go-sections :
    (bids : List BidFields) (n : ℕ) (before t : Bytes) (e : Option EndFields) (part : Part)
    (first : Bool) (out out' : Bytes)
    → Prints t part first out section first out'
    → Fits t
    → length t < 24
    → All BidFits bids
    → EndFits e
    → go (rounds n bids) before t (sections bids e) part first out
      ≡ some (out' ++ section_lines (bid_heading first) bids e)
unfolding print_token
go-sections [] n before t e part first out out' prints h short hs ok =
    go-end n before t e part first out out' prints h short ok
go-sections (b ∷ bs) n before t e part first out out' prints h short (hb, hs) ok =
    let m = rounds n bs in
    let u = labelled (codes "Bidder UID: ") b.uid in
    let v = labelled (codes "Bid Value: ") (print b.bid_value) in
    let d = labelled_pair (codes "Bid Date-Time: ") b.datetime1 b.datetime2 in
    let s = labelled (codes "Bid Sec Time: ") (print_int b.bidtime) in
    let o1 = out' ++ (bid_heading first ++ u) in
    one (suc (suc (suc (suc m)))) before t part section first first out out' _ _ prints h
    ∙ one (suc (suc (suc m))) _ (codes "B") section bidder_uid first first out' out' _ _
        (λ buffer j. refl) B_fits
    ∙ one (suc (suc m)) _ b.uid bidder_uid bid_value first false out' o1 _ _ (λ buffer j. refl)
        hb.uid
    ∙ one (suc m) _ (print b.bid_value) bid_value bid_date false false o1 (o1 ++ v) _ _
        (λ buffer j. refl) hb.value
    ∙ two m _ b.datetime1 bid_date bid_sec_time false false (o1 ++ v) ((o1 ++ v) ++ d) b.datetime2
        (print_int b.bidtime) (sections bs e) (λ buffer i k reads. ground (arith, reads)) hb.date
        hb.hour
    ∙ go-sections bs n _ (print_int b.bidtime) e bid_sec_time false ((o1 ++ v) ++ d)
        (((o1 ++ v) ++ d) ++ s) (λ buffer j. refl) hb.time hb.time_short hs ok
    ∙ ap some (regroup out' (bid_heading first) u v d s _)

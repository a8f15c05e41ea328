-- ===== src/Client/Record/Answer.antt =====
-- `showRecord` on the reply that `get_auc_info` puts together.
use auction_simulator.Prelude.{
  ℕ, suc, ◌+◌, ◌-◌, ◌*◌, ◌≤◌, ◌<◌, ◌≡◌, refl, ◌∙◌, ap, true, false, Option, none, some, List, [],
  ◌∷◌, ◌++◌, arith, append_assoc, length, length-append, All,
}
use auction_simulator.Text.{Bytes, codes, newline, blank, all, same}
use auction_simulator.Text.Decimal.{print}
use auction_simulator.Auctions.Files.{StartFields, BidFields, EndFields}
use auction_simulator.Socket.Fields.{is_plain}
use auction_simulator.Client.Buffer.{starts, verify_buffer}
use auction_simulator.Client.Buffer.Lines.{IsToken, IsTokens, line, verify_buffer-line}
use auction_simulator.Client.Record.{
  host_uid, auction_name, asset_filename, start_value, start_date, time_active, print_token,
  print_record, labelled, labelled_pair, record_title, bids_title, record_answer, first_state,
}
use auction_simulator.Client.Record.Laws.{Fits, go, one, two}
use auction_simulator.Client.Record.Shows.{
  end_tokens, sections, section_lines, BidFits, EndFits, rounds, go-sections,
}
use auction_simulator.Client.Record.Reply.{record_tokens, record_reply, record_reply-line}

pub record StartFits (s : StartFields) : Type 0 where
  pub uid : Fits s.uid
  pub name : Fits s.name
  pub asset : Fits s.asset_fname
  pub value : Fits (print s.start_value)
  pub date : Fits s.datetime1
  pub hour : Fits s.datetime2
  pub time : Fits (print s.timeactive)
  pub time_short : length (print s.timeactive) < 24

abbrev pub start_lines : StartFields → Bytes
start_lines s =
    labelled (codes "Host UID: ") s.uid
    ++ (labelled (codes "Auction Name: ") s.name
        ++ (labelled (codes "Asset Filename: ") s.asset_fname
            ++ (labelled (codes "Start Value: ") (print s.start_value)
                ++ (labelled_pair (codes "Start Date-Time: ") s.datetime1 s.datetime2
                    ++ labelled (codes "Time Active: ") (print s.timeactive)))))

regroup :
    (o a b c d e f s : Bytes)
    → ((((((o ++ a) ++ b) ++ c) ++ d) ++ e) ++ f) ++ s
      ≡ o ++ ((a ++ (b ++ (c ++ (d ++ (e ++ f))))) ++ s)
regroup o a b c d e f s = simp append_assoc

module _ (s : StartFields) (bids : List BidFields) (e : Option EndFields) (before : Bytes) where
  go-record :
      (n : ℕ)
      → StartFits s
      → All BidFits bids
      → EndFits e
      → go
          (suc (suc (suc (suc (suc (rounds n bids))))))
          before
          s.uid
          (record_tokens s bids e)
          host_uid
          true
          record_title
        ≡ some (record_title ++ (start_lines s ++ section_lines bids_title bids e))
  unfolding print_token
  go-record n h hs ok =
      let m = rounds n bids in
      let o1 = record_title ++ labelled (codes "Host UID: ") s.uid in
      let o2 = o1 ++ labelled (codes "Auction Name: ") s.name in
      let o3 = o2 ++ labelled (codes "Asset Filename: ") s.asset_fname in
      let o4 = o3 ++ labelled (codes "Start Value: ") (print s.start_value) in
      let o5 = o4 ++ labelled_pair (codes "Start Date-Time: ") s.datetime1 s.datetime2 in
      one (suc (suc (suc (suc m)))) before s.uid host_uid auction_name true true record_title o1 _ _
        (λ buffer j. refl) h.uid
      ∙ one (suc (suc (suc m))) _ s.name auction_name asset_filename true true o1 o2 _ _
          (λ buffer j. refl) h.name
      ∙ one (suc (suc m)) _ s.asset_fname asset_filename start_value true true o2 o3 _ _
          (λ buffer j. refl) h.asset
      ∙ one (suc m) _ (print s.start_value) start_value start_date true true o3 o4 _ _
          (λ buffer j. refl) h.value
      ∙ two m _ s.datetime1 start_date time_active true true o4 o5 s.datetime2 (print s.timeactive)
          _ (λ buffer i k reads. ground (arith, reads)) h.date h.hour
      ∙ go-sections bids n _ (print s.timeactive) e time_active true o5
          (o5 ++ labelled (codes "Time Active: ") (print s.timeactive)) (λ buffer j. refl) h.time
          h.time_short hs ok
      ∙ ap some (
          regroup record_title (labelled (codes "Host UID: ") s.uid)
            (labelled (codes "Auction Name: ") s.name)
            (labelled (codes "Asset Filename: ") s.asset_fname)
            (labelled (codes "Start Value: ") (print s.start_value))
            (labelled_pair (codes "Start Date-Time: ") s.datetime1 s.datetime2)
            (labelled (codes "Time Active: ") (print s.timeactive)) _)

-- The rounds are fewer than the bytes of the reply.
rounds-value : (n : ℕ) (bids : List BidFields) → rounds n bids ≡ n + 4 + 5 * length bids
rounds-value n [] = omega arith
rounds-value n (b ∷ bs) = omega (arith, rounds-value n bs)

length-line : (t : Bytes) (ts : List Bytes) → length ts < length (line t ts)
unfolding line
length-line t [] = omega (arith, length-append t (newline ∷ []))
length-line t (u ∷ ts) = omega (arith, length-append t (blank ∷ line u ts), length-line u ts)

length-sections :
    (bids : List BidFields) (e : Option EndFields) → 6 * length bids ≤ length (sections bids e)
length-sections [] e = omega arith
length-sections (b ∷ bs) e = omega (arith, length-sections bs e)

enough :
    (n : ℕ) (bids : List BidFields)
    → 9 + 5 * length bids ≤ n
    → (m : ℕ) × (n ≡ suc (suc (suc (suc (suc (rounds m bids))))))
enough n bids h =
    (n - (9 + 5 * length bids), omega (arith, rounds-value (n - (9 + 5 * length bids)) bids))

Fits-IsToken : (t : Bytes) → Fits t → IsToken t
Fits-IsToken t h = record { plain = h.plain; filled = h.filled }

code : (c : ℕ) (t : Bytes) → all is_plain (c ∷ t) ≡ true → IsToken (c ∷ t)
code c t h = record { plain = h; filled = omega arith }

end_tokens-IsTokens : (e : Option EndFields) → EndFits e → IsTokens (end_tokens e)
unfolding all
end_tokens-IsTokens none h = tt
end_tokens-IsTokens (some e) h = (
  code b'E' [] refl,
  (Fits-IsToken _ h.date, (Fits-IsToken _ h.hour, (Fits-IsToken _ h.time, tt))),
)

sections-IsTokens :
    (bids : List BidFields) (e : Option EndFields)
    → All BidFits bids
    → EndFits e
    → IsTokens (sections bids e)
unfolding all
sections-IsTokens [] e hs ok = end_tokens-IsTokens e ok
sections-IsTokens (b ∷ bs) e (h, hs) ok = (
  code b'B' [] refl,
  (
    Fits-IsToken _ h.uid,
    (
      Fits-IsToken _ h.value,
      (
        Fits-IsToken _ h.date,
        (Fits-IsToken _ h.hour, (Fits-IsToken _ h.time, sections-IsTokens bs e hs ok)),
      ),
    ),
  ),
)

record_tokens-IsTokens :
    (s : StartFields) (bids : List BidFields) (e : Option EndFields)
    → StartFits s
    → All BidFits bids
    → EndFits e
    → IsTokens (record_tokens s bids e)
record_tokens-IsTokens s bids e h hs ok = (
  Fits-IsToken _ h.name,
  (
    Fits-IsToken _ h.asset,
    (
      Fits-IsToken _ h.value,
      (
        Fits-IsToken _ h.date,
        (Fits-IsToken _ h.hour, (Fits-IsToken _ h.time, sections-IsTokens bids e hs ok)),
      ),
    ),
  ),
)

-- What is printed for a record.
abbrev pub record_lines : StartFields → List BidFields → Option EndFields → Bytes
record_lines s bids e = record_title ++ (start_lines s ++ section_lines bids_title bids e)

rounds_run :
    (n : ℕ) (s : StartFields) (bids : List BidFields) (e : Option EndFields)
    → StartFits s
    → All BidFits bids
    → EndFits e
    → 9 + 5 * length bids ≤ n
    → print_record n (codes "RRC OK " ++ line s.uid (record_tokens s bids e)) 7 first_state
      ≡ some (record_lines s bids e)
rounds_run n s bids e h hs ok le =
    let (m, eq) = enough n bids le in rw eq (go-record s bids e (codes "RRC OK ") m h hs ok)

record_answer-line :
    (s : StartFields) (bids : List BidFields) (e : Option EndFields)
    → StartFits s
    → All BidFits bids
    → EndFits e
    → record_answer (codes "RRC OK " ++ line s.uid (record_tokens s bids e))
      ≡ some (record_lines s bids e)
unfolding record_answer
record_answer-line s bids e h hs ok =
    let text = line s.uid (record_tokens s bids e) in
    let accepted : verify_buffer (codes "RRC OK " ++ text) ≡ true =
      unfold all line in
      verify_buffer-line (codes "RRC") (codes "OK" ∷ s.uid ∷ record_tokens s bids e)
        (code b'R' (codes "RC") refl)
        (
          code b'O' (codes "K") refl,
          (Fits-IsToken _ h.uid, record_tokens-IsTokens s bids e h hs ok),
        ) in
    let ok_text : starts (codes "RRC OK ") (codes "RRC OK " ++ text) ≡ true =
      unfold starts same in refl in
    let nok_text : starts (codes "RRC NOK") (codes "RRC OK " ++ text) ≡ false =
      unfold starts same in refl in
    rw (accepted, nok_text, ok_text)
      (rounds_run _ s bids e h hs ok
        (omega (arith, length-line s.uid (record_tokens s bids e), length-sections bids e)))

-- What `showRecord` prints of a record that is in its buffer.
pub record_answer-record_reply :
    (s : StartFields) (bids : List BidFields) (e : Option EndFields)
    → StartFits s
    → All BidFits bids
    → EndFits e
    → record_answer (record_reply s bids e) ≡ some (record_lines s bids e)
record_answer-record_reply s bids e h hs ok =
    ap record_answer (record_reply-line s bids e) ∙ record_answer-line s bids e h hs ok

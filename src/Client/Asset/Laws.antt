-- ===== src/Client/Asset/Laws.antt =====
-- The client stores the asset that the server sends.
use auction_simulator.Prelude.{
  ℕ, zero, suc, ◌+◌, ◌^◌, ◌≤◌, ◌<◌, ◌≡◌, refl, sym, ◌∙◌, ap, true, false, some, List, [], ◌∷◌, ◌++◌,
  ◌==◌, arith, append_assoc, append-nil, length, length-append, take, drop-append, if◌then◌else◌,
}
use auction_simulator.Text.{Bytes, codes, newline, blank, all, same}
use auction_simulator.Text.Decimal.{print, atoi, atoi-print, print-IsDigit, length-print_upper}
use auction_simulator.World.Dir.{put}
use auction_simulator.Socket.{Socket, later_limits}
use auction_simulator.Socket.Fields.{is_plain, read_one}
use auction_simulator.Socket.Transfers.{store_file_complete}
use auction_simulator.Tcp.Asset.Laws.{asset_reply}
use auction_simulator.Client.Buffer.{starts}
use auction_simulator.Client.Requests.Numbers.{digits-plain, all-IsDigit}
use auction_simulator.Client.Requests.Laws.{coming}
use auction_simulator.Client.Asset.{
  text, overrun, field_rounds, read_field, Files, can_open, read_file, stored_text, asset_answer,
  asset_fields, by_status, named_asset, keep_asset,
}

plain_head :
    (c : ℕ) (t : Bytes)
    → all is_plain (c ∷ t) ≡ true
    → ((c == blank) ≡ false) × (all is_plain t ≡ true)
unfolding all
plain_head c t h = ground arith

field_round :
    (n room : ℕ) (buffer : Bytes) (c : ℕ) (cs : Bytes) (limits : List ℕ)
    → field_rounds (suc n) room buffer (coming (c ∷ cs) limits) ≡ (
        if length buffer == room
        then overrun
        else if c == blank
        then text buffer (coming cs (later_limits limits))
        else field_rounds n room (buffer ++ c ∷ []) (coming cs (later_limits limits)))
unfolding field_rounds
field_round n room buffer c cs limits = ground (arith, read_one c cs limits)

-- A field with a space behind it.
field_rounds-blank :
    (n room : ℕ) (buffer t rest : Bytes) (limits : List ℕ)
    → all is_plain t ≡ true
    → length t < n
    → length buffer + length t < room
    → (later : List ℕ) × (field_rounds n room buffer (coming (t ++ blank ∷ rest) limits)
        ≡ text (buffer ++ t) (coming rest later))
field_rounds-blank zero room buffer t rest limits h few fits = absurd (omega arith)
field_rounds-blank (suc n) room buffer [] rest limits h few fits =
    let free : (length buffer == room) ≡ false = ground arith in
    (
      later_limits limits,
      rw (field_round n room buffer blank rest limits, free, append-nil buffer) refl,
    )
field_rounds-blank (suc n) room buffer (c ∷ t) rest limits h few fits =
    let (b, hs) = plain_head c t h in
    let free : (length buffer == room) ≡ false = ground arith in
    let (later, e) =
      field_rounds-blank n room (buffer ++ c ∷ []) t rest (later_limits limits) hs (omega arith)
        (omega (arith, length-append buffer (c ∷ []))) in
    (
      later,
      rw (field_round n room buffer c (t ++ blank ∷ rest) limits, free, b)
          (e ∙ ap (λ s. text s (coming rest later)) (append_assoc buffer (c ∷ []) t)),
    )

read_field-blank :
    (size room : ℕ) (t rest : Bytes) (limits : List ℕ)
    → all is_plain t ≡ true
    → length t ≤ size
    → length t < room
    → (later : List ℕ) × (read_field size room (coming (t ++ blank ∷ rest) limits)
        ≡ text t (coming rest later))
unfolding read_field
read_field-blank size room t rest limits h few fits =
    field_rounds-blank (size + 1) room [] t rest limits h (omega arith) (omega arith)

regroup :
    (name size content : Bytes)
    → (codes "RSA OK" ++ blank ∷ (name ++ blank ∷ size))
        ++ blank ∷ ((content ++ newline ∷ []) ++ newline ∷ [])
      ≡ codes "RSA"
        ++ blank
          ∷ (codes "OK"
              ++ blank ∷ (name ++ blank ∷ (size ++ blank ∷ (content ++ newline ∷ newline ∷ []))))
regroup name size content = simp append_assoc

take_append : (xs ys : Bytes) → take (length xs) (xs ++ ys) ≡ xs
take_append [] ys = refl
take_append (x ∷ xs) ys = rw (take_append xs ys)

-- The file behind the fields.
read_file-content :
    (name content : Bytes) (limits : List ℕ) (files : Files)
    → can_open name ≡ true
    → read_file (length content) name (coming (content ++ newline ∷ newline ∷ []) limits) files
      ≡ put name content files
unfolding read_file
read_file-content name content limits files h =
    let s = coming (content ++ newline ∷ newline ∷ []) limits in
    let (whole, _) =
      store_file_complete (length content) s newline (newline ∷ [])
        (drop-append content (newline ∷ newline ∷ [])) in
    rw (h, whole, take_append content (newline ∷ newline ∷ [])) refl

ok_status :
    (status1 : Bytes) (files : Files) (s : Socket)
    → by_status status1 files (text (codes "OK") s) ≡ named_asset files (read_field 25 25 s)
unfolding starts same
ok_status status1 files s = refl

-- Whatever pieces the reply arrives in, `showAsset` stores an asset of less than 100 MB with a name
-- of at most 24 bytes under its name, with the bytes that the server has, and shows name and size.
pub asset_answer-asset_reply :
    (name content : Bytes) (others : List (Bytes × Bytes)) (limits : List ℕ) (files : Files)
    → all is_plain name ≡ true
    → length name ≤ 24
    → can_open name ≡ true
    → length content < 10 ^ 8
    → asset_answer (coming (asset_reply ((name, content) ∷ others)) limits) files
      ≡ some (put name content files, stored_text name (print (length content)))
unfolding asset_answer all keep_asset
asset_answer-asset_reply name content others limits files plain short opens few =
    let size = print (length content) in
    let tail = content ++ newline ∷ newline ∷ [] in
    let (l1, e1) =
      read_field-blank 3 5 (codes "RSA")
        (codes "OK" ++ blank ∷ (name ++ blank ∷ (size ++ blank ∷ tail))) limits refl (omega arith)
        (omega arith) in
    let (l2, e2) =
      read_field-blank 3 5 (codes "OK") (name ++ blank ∷ (size ++ blank ∷ tail)) l1 refl
        (omega arith) (omega arith) in
    let (l3, e3) =
      read_field-blank 25 25 name (size ++ blank ∷ tail) l2 plain (omega arith) (omega arith) in
    let upper = length-print_upper 7 (length content) few in
    let (l4, e4) =
      read_field-blank 9 9 size tail l3
        (digits-plain size (all-IsDigit size (print-IsDigit (length content))))
        (omega (arith, upper)) (omega (arith, upper)) in
    ap (λ i. asset_answer (coming i limits) files) (regroup name size content)
    ∙ ap (asset_fields files) e1
    ∙ ap (by_status (codes "RSA") files) e2
    ∙ ok_status (codes "RSA") files (coming (name ++ blank ∷ (size ++ blank ∷ tail)) l2)
    ∙ ap (named_asset files) e3
    ∙ ap (keep_asset name files) e4
    ∙ ap (λ fs. some (fs, stored_text name size))
        (ap (λ k. read_file k name (coming tail l4) files)
            (ap atoi (sym (append-nil size)) ∙ atoi-print (length content) [] tt)
          ∙ read_file-content name content l4 files opens)

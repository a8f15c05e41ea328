-- ===== src/Client/Listing/Laws.antt =====
-- The lists that the server sends are printed with one auction a line.
use auction_simulator.Prelude.{
  ℕ, zero, suc, ◌+◌, ◌≤◌, ◌<◌, ◌≡◌, refl, ◌∙◌, ap, Bool, true, false, none, some, List, [], ◌∷◌,
  ◌++◌, arith, append_assoc, append-nil, length, length-append, All,
}
use auction_simulator.Text.{Bytes, newline, blank, all}
use auction_simulator.Socket.Fields.{is_plain}
use auction_simulator.Auctions.Listing.Laws.{entries, state_text}
use auction_simulator.Client.Buffer.{read_buffer_token}
use auction_simulator.Client.Buffer.Laws.{
  read_buffer_token-blank, read_buffer_token-newline, past, past-append, length-past,
}
use auction_simulator.Client.Buffer.Lines.{IsTokens, line}
use auction_simulator.Client.Listing.{print_pairs, pair_line}

-- An identifier as the server prints it: at most three bytes, none of them a separator.
pub record IsShort (auc_id : Bytes) : Type 0 where
  pub plain : all is_plain auc_id ≡ true
  pub fits : length auc_id ≤ 3
  pub filled : 0 < length auc_id

-- "001 1\n002 0\n…"
abbrev pub lines : List Bytes → List Bool → Bytes
lines [] states = []
lines (auc_id ∷ ids) [] = []
lines (auc_id ∷ ids) (b ∷ states) = pair_line auc_id (state_text b) ++ lines ids states

-- The tokens of a list: identifiers and states in turn.
abbrev pub tokens : List Bytes → List Bool → List Bytes
tokens [] states = []
tokens (auc_id ∷ ids) [] = []
tokens (auc_id ∷ ids) (b ∷ states) = auc_id ∷ state_text b ∷ tokens ids states

-- "001 1 002 0 … \n"
abbrev pub listing : Bytes → Bool → List Bytes → List Bool → Bytes
listing auc_id b ids states = line auc_id (state_text b ∷ tokens ids states)

state_plain : (b : Bool) → (all is_plain (state_text b) ≡ true) × (length (state_text b) ≡ 1)
unfolding all
state_plain true = (refl, refl)
state_plain false = (refl, refl)

module _ (n : ℕ) (buffer : Bytes) (i j : ℕ) (out token token2 : Bytes)
    (first : read_buffer_token buffer 4 i ≡ some (token, some j)) where
  pairs_last :
      read_buffer_token buffer 4 (j + 1) ≡ some (token2, none)
      → print_pairs (suc n) buffer i out ≡ some (out ++ pair_line token token2)
  unfolding print_pairs
  pairs_last second = ground arith

  pairs_more :
      (k : ℕ)
      → read_buffer_token buffer 4 (j + 1) ≡ some (token2, some k)
      → print_pairs (suc n) buffer i out
        ≡ print_pairs n buffer (k + 1) (out ++ pair_line token token2)
  unfolding print_pairs
  pairs_more k second = ground arith

module _ (before auc_id : Bytes) (b : Bool) (h : IsShort auc_id) where
  second_last :
      read_buffer_token
        (before ++ (auc_id ++ blank ∷ (state_text b ++ newline ∷ [])))
        4
        (length before + length auc_id + 1)
      ≡ some (state_text b, none)
  second_last =
      rw (past-append before auc_id (state_text b ++ newline ∷ []), ← length-past before auc_id)
        (read_buffer_token-newline 4 (past before auc_id) (state_text b) [] (state_plain b).0
          (omega (arith, (state_plain b).1)))

  second_more :
      (rest : Bytes)
      → read_buffer_token
          (before ++ (auc_id ++ blank ∷ (state_text b ++ blank ∷ rest)))
          4
          (length before + length auc_id + 1)
        ≡ some (state_text b, some (length (past before auc_id) + length (state_text b)))
  second_more rest =
      rw (past-append before auc_id (state_text b ++ blank ∷ rest), ← length-past before auc_id)
        (read_buffer_token-blank 4 (past before auc_id) (state_text b) rest (state_plain b).0
          (omega (arith, (state_plain b).1)))

  behind :
      (rest : Bytes)
      → before ++ (auc_id ++ blank ∷ (state_text b ++ blank ∷ rest))
        ≡ past (past before auc_id) (state_text b) ++ rest
  behind rest =
      past-append before auc_id (state_text b ++ blank ∷ rest)
      ∙ past-append (past before auc_id) (state_text b) rest

abbrev pub Shorts : List Bytes → Type 0
Shorts = All IsShort

-- The loop prints a list whose every identifier has a state, with a round for each.
pub print_pairs-listing :
    (n : ℕ) (before auc_id : Bytes) (b : Bool) (ids : List Bytes) (states : List Bool) (out : Bytes)
    → IsShort auc_id
    → Shorts ids
    → length ids ≤ length states
    → length ids < n
    → print_pairs n (before ++ listing auc_id b ids states) (length before) out
      ≡ some (out ++ (pair_line auc_id (state_text b) ++ lines ids states))
unfolding line
print_pairs-listing zero before auc_id b ids states out h hs e lt = absurd (omega arith)
print_pairs-listing (suc n) before auc_id b (next ∷ ids) [] out h hs e lt = absurd (omega arith)
print_pairs-listing (suc n) before auc_id b [] states out h hs e lt =
    pairs_last n _ (length before) (length before + length auc_id) out auc_id (state_text b)
      (read_buffer_token-blank 4 before auc_id _ h.plain (omega (arith, h.fits)))
      (second_last before auc_id b h)
    ∙ ap (λ l. some (out ++ l)) (ground (arith, append-nil (pair_line auc_id (state_text b))))
print_pairs-listing (suc n) before auc_id b (next ∷ ids) (c ∷ states) out h (hn, hs) e lt =
    let rest = listing next c ids states in
    let here = past (past before auc_id) (state_text b) in
    pairs_more n _ (length before) (length before + length auc_id) out auc_id (state_text b)
      (read_buffer_token-blank 4 before auc_id _ h.plain (omega (arith, h.fits)))
      (length (past before auc_id) + length (state_text b)) (second_more before auc_id b h rest)
    ∙ rw (behind before auc_id b h rest, ← length-past (past before auc_id) (state_text b))
        (print_pairs-listing n here next c ids states (out ++ pair_line auc_id (state_text b)) hn hs
          (omega arith) (omega arith))
    ∙ ap some (append_assoc out (pair_line auc_id (state_text b)) (lines (next ∷ ids) (c ∷ states)))

pub entries-line :
    (t : Bytes) (ids : List Bytes) (states : List Bool)
    → t ++ (entries ids states ++ newline ∷ []) ≡ line t (tokens ids states)
unfolding line
entries-line t [] states = refl
entries-line t (auc_id ∷ ids) [] = refl
entries-line t (auc_id ∷ ids) (true ∷ states) =
    simp (append_assoc, ← entries-line (state_text true) ids states)
entries-line t (auc_id ∷ ids) (false ∷ states) =
    simp (append_assoc, ← entries-line (state_text false) ids states)

pub tokens-IsTokens :
    (ids : List Bytes) (states : List Bool) → Shorts ids → IsTokens (tokens ids states)
tokens-IsTokens [] states h = tt
tokens-IsTokens (auc_id ∷ ids) [] h = tt
tokens-IsTokens (auc_id ∷ ids) (b ∷ states) (h, hs) = (
  record { plain = h.plain; filled = h.filled },
  (
    record { plain = (state_plain b).0; filled = omega (arith, (state_plain b).1) },
    tokens-IsTokens ids states hs,
  ),
)

pub length-line :
    (t : Bytes) (ids : List Bytes) (states : List Bool)
    → length ids ≤ length states
    → length ids < length (line t (tokens ids states))
unfolding line
length-line t [] states h = omega (arith, length-append t (newline ∷ []))
length-line t (auc_id ∷ ids) [] h = absurd (omega arith)
length-line t (auc_id ∷ ids) (b ∷ states) h = omega (
  arith,
  length-line (state_text b) ids states (omega arith),
  length-append t (blank ∷ (auc_id ++ blank ∷ line (state_text b) (tokens ids states))),
  length-append auc_id (blank ∷ line (state_text b) (tokens ids states)),
)

-- ===== src/Client/Buffer/Laws.antt =====
-- `read_buffer_token` on a token that is followed by a space or by the end of the line.
use auction_simulator.Prelude.{
  ℕ, zero, suc, ◌+◌, ◌-◌, ◌≤◌, ◌<◌, ◌≡◌, ◌∙◌, true, false, none, some, [], ◌∷◌, ◌++◌, arith,
  append_assoc, append-nil, ◌==◌, length, drop-append, length-append,
}
use auction_simulator.Text.{Bytes, newline, blank, all}
use auction_simulator.Socket.Fields.{is_plain}
use auction_simulator.Client.Buffer.{token_loop, read_buffer_token}

plain_first :
    (c : ℕ) (s : Bytes)
    → all is_plain (c ∷ s) ≡ true
    → ((c == blank) ≡ false) × ((c == newline) ≡ false) × (all is_plain s ≡ true)
unfolding all
plain_first c s h = ground arith

token_loop-blank :
    (size : ℕ) (t rest : Bytes) (i : ℕ) (token : Bytes)
    → all is_plain t ≡ true
    → length t ≤ size
    → token_loop size (t ++ blank ∷ rest) i token ≡ some (token ++ t, some (i + length t))
unfolding token_loop
token_loop-blank zero [] rest i token h le = ground (arith, append-nil token)
token_loop-blank (suc size) [] rest i token h le = ground (arith, append-nil token)
token_loop-blank zero (c ∷ t) rest i token h le = absurd (omega arith)
token_loop-blank (suc size) (c ∷ t) rest i token h le =
    let (b, l, hs) = plain_first c t h in
    rw (b, l)
      (token_loop-blank size t rest (i + 1) (token ++ c ∷ []) hs (omega arith)
        ∙ ground (arith, append_assoc token (c ∷ []) t))

token_loop-newline :
    (size : ℕ) (t rest : Bytes) (i : ℕ) (token : Bytes)
    → all is_plain t ≡ true
    → length t < size
    → token_loop size (t ++ newline ∷ rest) i token ≡ some (token ++ t, none)
unfolding token_loop
token_loop-newline zero t rest i token h lt = absurd (omega arith)
token_loop-newline (suc size) [] rest i token h lt = ground (arith, append-nil token)
token_loop-newline (suc size) (c ∷ t) rest i token h lt =
    let (b, l, hs) = plain_first c t h in
    rw (b, l)
      (token_loop-newline size t rest (i + 1) (token ++ c ∷ []) hs (omega arith)
        ∙ ground (arith, append_assoc token (c ∷ []) t))

-- A token with a space behind it: the index is that of the space.
pub read_buffer_token-blank :
    (size : ℕ) (before t rest : Bytes)
    → all is_plain t ≡ true
    → length t + 1 ≤ size
    → read_buffer_token (before ++ (t ++ blank ∷ rest)) size (length before)
      ≡ some (t, some (length before + length t))
unfolding read_buffer_token
read_buffer_token-blank size before t rest h le =
    rw (drop-append before (t ++ blank ∷ rest))
      (token_loop-blank (size - 1) t rest (length before) [] h (omega arith))

-- A token at the end of the line: the index is -1.
pub read_buffer_token-newline :
    (size : ℕ) (before t rest : Bytes)
    → all is_plain t ≡ true
    → length t + 1 < size
    → read_buffer_token (before ++ (t ++ newline ∷ rest)) size (length before) ≡ some (t, none)
unfolding read_buffer_token
read_buffer_token-newline size before t rest h lt =
    rw (drop-append before (t ++ newline ∷ rest))
      (token_loop-newline (size - 1) t rest (length before) [] h (omega arith))

-- The text up to a token and the space behind it, and the index behind that space.
pub past : Bytes → Bytes → Bytes
past before t = before ++ (t ++ blank ∷ [])

pub past-append : (before t rest : Bytes) → before ++ (t ++ blank ∷ rest) ≡ past before t ++ rest
unfolding past
past-append before t rest = simp append_assoc

pub length-past : (before t : Bytes) → length (past before t) ≡ length before + length t + 1
unfolding past
length-past before t =
    omega (arith, length-append before (t ++ blank ∷ []), length-append t (blank ∷ []))

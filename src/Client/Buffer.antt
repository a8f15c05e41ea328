-- ===== src/Client/Buffer.antt =====
-- Replies in the client's buffer: `verify_buffer`, `verify_input_buffer` and `read_buffer_token` of
-- client/aux_functions.c, and the comparisons of client/functions.c.
pub mod Laws
pub mod Lines
use auction_simulator.Prelude.{
  ℕ, zero, suc, ◌+◌, ◌-◌, Bool, true, false, not, ◌&&◌, ◌||◌, Option, none, some, List, [], ◌∷◌,
  ◌++◌, ltb, leb, ◌==◌, length, take, drop, if◌then◌else◌,
}
use auction_simulator.Text.{Bytes, newline, blank, same}

-- `!strncmp(buffer, text, n)`, where `n` is the length of the text.
unfoldable pub starts : Bytes → Bytes → Bool
unfolding same
starts text buffer = same (take (length text) buffer) text

unfoldable pub ends_line : Bytes → Bool
ends_line [] = false
ends_line (c ∷ []) = c == newline
ends_line (c ∷ d ∷ s) = ends_line (d ∷ s)

abbrev is_blank_first : Bytes → Bool
is_blank_first [] = false
is_blank_first (c ∷ s) = c == blank

-- Two spaces in a row.
unfoldable pub has_gap : Bytes → Bool
has_gap [] = false
has_gap (c ∷ []) = false
has_gap (c ∷ d ∷ s) = (c == blank && d == blank) || has_gap (d ∷ s)

unfoldable pub verify_input_buffer : Bytes → Bool
unfolding has_gap
verify_input_buffer input =
    not (is_blank_first input) && (not (leb (length input) 1) && not (has_gap input))

unfoldable pub verify_buffer : Bytes → Bool
unfolding ends_line has_gap
verify_buffer input =
    ends_line input
    && (not (is_blank_first input) && (not (leb (length input) 1) && not (has_gap input)))

-- What the loop of `read_buffer_token` leaves in `token`, and the index that it returns: `none` is -1.
-- There is no result where the loop leaves the text: what lies behind it in the buffer is undefined.
unfoldable pub token_loop : ℕ → Bytes → ℕ → Bytes → Option (Bytes × Option ℕ)
token_loop size [] i token = none
token_loop zero (c ∷ s) i token = some (token, some i)
token_loop (suc size) (c ∷ s) i token =
    let rest = token_loop size s (i + 1) (token ++ c ∷ []) in
    if c == blank then some (token, some i) else if c == newline then some (token, none) else rest

-- `token_size` counts the final NUL.
unfoldable pub read_buffer_token : Bytes → ℕ → ℕ → Option (Bytes × Option ℕ)
unfolding token_loop
read_buffer_token buffer token_size start_pos =
    token_loop (token_size - 1) (drop start_pos buffer) start_pos []

-- `++i`
abbrev pub next_index : Option ℕ → ℕ
next_index none = 0
next_index (some i) = i + 1

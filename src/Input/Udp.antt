-- ===== src/Input/Udp.antt =====
-- The `read_…_udp` functions of server/input_funcs.c. Each returns 0 or fills a buffer; here it
-- returns `none` or the text in the buffer.
pub mod Laws
use mathlib.Core.Option
use auction_simulator.Prelude.{
  ℕ, zero, suc, Bool, ◌||◌, Option, none, some, [], ◌∷◌, ◌++◌, ltb, ◌==◌, length, drop,
  if◌then◌else◌,
}
use auction_simulator.Text.{Bytes, newline, blank, is_digit, is_alnum}
use auction_simulator.Text.Decimal.{print3, atoi}

-- `#define` lines of server/server.h
abbrev pub command_size : ℕ
command_size = 3

abbrev pub uid_size : ℕ
uid_size = 6

abbrev pub password_size : ℕ
password_size = 8

abbrev pub aid_size : ℕ
aid_size = 3

-- What `read_command_udp` returns besides 0: 1 at a separating space, 2 at the end of the line.
pub data CommandEnd : Type 0 where
  separated ended : CommandEnd

unfoldable pub read_command_udp : Bytes → Option (Bytes × CommandEnd)
read_command_udp (a ∷ b ∷ c ∷ d ∷ rest) =
    if d == blank
    then some (a ∷ b ∷ c ∷ [], separated)
    else if d == newline
    then some (a ∷ b ∷ c ∷ [], ended)
    else none
read_command_udp input = none

-- The loop of the three readers below: `n` bytes that pass the test, then the byte `close`.
unfoldable pub read_chars : (ℕ → Bool) → ℕ → ℕ → Bytes → Option Bytes
read_chars test close n [] = none
read_chars test close zero (c ∷ s) = if c == close then some [] else none
read_chars test close (suc n) (c ∷ s) =
    let rest = Option.map (λ t. c ∷ t) (read_chars test close n s) in if test c then rest else none

unfoldable pub read_uid_udp : Bytes → Option Bytes
unfolding read_chars
read_uid_udp input =
    if ltb (length input) 11 then none else read_chars is_digit blank uid_size (drop 4 input)

unfoldable pub read_uid_udp_final : Bytes → Option Bytes
unfolding read_chars
read_uid_udp_final input =
    if ltb (length input) 11 then none else read_chars is_digit newline uid_size (drop 4 input)

unfoldable pub read_password_udp : Bytes → Option Bytes
unfolding read_chars
read_password_udp input =
    if ltb (length input) 20
    then none
    else read_chars is_alnum newline password_size (drop 11 input)

-- The text written by `sprintf(aid, "%03d", atoi(buffer))`, unless the buffer is still empty.
unfoldable pub close_aid : Bytes → Option Bytes
unfolding print3 atoi
close_aid [] = none
close_aid (c ∷ buffer) = some (print3 (atoi (c ∷ buffer)))

-- The loop of `read_aid_udp`, with the rounds that are left and the buffer so far.
unfoldable pub read_aid_loop : ℕ → Bytes → Bytes → Option Bytes
unfolding close_aid
read_aid_loop zero buffer s = none
read_aid_loop (suc n) buffer [] = none
read_aid_loop (suc n) buffer (c ∷ s) =
    let rest = read_aid_loop n (buffer ++ c ∷ []) s in
    if c == newline then close_aid buffer else if is_digit c then rest else none

unfoldable pub read_aid_udp : Bytes → Option Bytes
unfolding read_aid_loop
read_aid_udp input =
    if ltb 8 (length input) || ltb (length input) 6 then none else read_aid_loop 4 [] (drop 4 input)

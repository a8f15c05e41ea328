-- ===== src/Text/Pad.antt =====
-- `%0wd` and `%ws` of `printf`, the cut of `snprintf`, and `%d` of `sscanf` on what a user types.
use auction_simulator.Prelude.{
  ℕ, zero, suc, ◌+◌, ◌-◌, ◌≤◌, ◌≡◌, ◌≢◌, refl, ◌∙◌, ap, Bool, Option, none, some, [], ◌∷◌, ◌++◌,
  arith, leb, ◌==◌, length, take, All, All-append, if◌then◌else◌,
}
use auction_simulator.Text.Chars.{Bytes, blank}
use auction_simulator.Text.Decimal.{print, print-IsDigit, print-ne-nil, value-print, IsDigit}
use auction_simulator.Text.Int.{ℤ, pos, negsuc, neg}
use auction_simulator.Text.Scan.{
  skip_space, scan_number, skip_space-word, print-IsWord, scan_number-digits,
}

unfoldable pub replicate : ℕ → ℕ → Bytes
replicate zero c = []
replicate (suc n) c = c ∷ replicate n c

-- `%0wd`: the sign counts for the width.
unfoldable pub print_padded : ℕ → ℤ → Bytes
unfolding replicate
print_padded w (pos n) = replicate (w - length (print n)) b'0' ++ print n
print_padded w (negsuc n) =
    b'-' ∷ (replicate (w - 1 - length (print (n + 1))) b'0' ++ print (n + 1))

-- `%ws`
unfoldable pub print_right : ℕ → Bytes → Bytes
unfolding replicate
print_right w s = replicate (w - length s) blank ++ s

-- `snprintf(buffer, size, …)`
abbrev pub snprintf : ℕ → Bytes → Bytes
snprintf size text = take (size - 1) text

-- A number that an `int` holds; `sscanf` on any other is undefined.
abbrev pub fits_int : ℤ → Bool
fits_int (pos n) = leb n 2147483647
fits_int (negsuc n) = leb n 2147483647

pub print_right-full : (w : ℕ) (s : Bytes) → length s ≡ w → print_right w s ≡ s
unfolding print_right replicate
print_right-full w s e = let z : w - length s ≡ 0 = omega arith in rw z refl

zeros-IsDigit : (n : ℕ) → All IsDigit (replicate n b'0')
unfolding replicate
zeros-IsDigit zero = tt
zeros-IsDigit (suc n) = (omega arith, zeros-IsDigit n)

pub print_padded-IsDigit : (w n : ℕ) → All IsDigit (print_padded w (pos n))
unfolding print_padded
print_padded-IsDigit w n = All-append IsDigit _ (print n) (zeros-IsDigit _) (print-IsDigit n)

abbrev in_range : Option (ℤ × Bytes) → Option (ℤ × Bytes)
in_range none = none
in_range (some (n, rest)) = if fits_int n then some (n, rest) else none

abbrev as_negative : Option (ℕ × Bytes) → Option (ℤ × Bytes)
as_negative none = none
as_negative (some (n, rest)) = some (neg n, rest)

abbrev as_positive : Option (ℕ × Bytes) → Option (ℤ × Bytes)
as_positive none = none
as_positive (some (n, rest)) = some (pos n, rest)

signed_number : Bytes → Option (ℤ × Bytes)
unfolding scan_number
signed_number [] = none
signed_number (c ∷ s) =
    if c == b'-'
    then as_negative (scan_number s)
    else if c == b'+'
    then as_positive (scan_number s)
    else as_positive (scan_number (c ∷ s))

-- `%d`, read from what a user types. `none` is a failed conversion or one that an `int` cannot hold.
unfoldable pub scan_d : Bytes → Option (ℤ × Bytes)
unfolding skip_space signed_number
scan_d s = in_range (signed_number (skip_space s))

signed_number-digits :
    (ds rest : Bytes)
    → ds ≢ []
    → All IsDigit ds
    → signed_number (ds ++ rest) ≡ as_positive (scan_number (ds ++ rest))
unfolding signed_number
signed_number-digits [] rest ne h = absurd (ne refl)
signed_number-digits (d ∷ ds) rest ne (h, hs) = ground arith

-- It reads back what `%d` wrote behind a space.
pub scan_d-print :
    (n : ℕ) (rest : Bytes)
    → n ≤ 2147483647
    → scan_d (blank ∷ (print n ++ blank ∷ rest)) ≡ some (pos n, blank ∷ rest)
unfolding scan_d skip_space
scan_d-print n rest h =
    ap (λ s. in_range (signed_number s)) (skip_space-word (print n) (blank ∷ rest) (print-IsWord n))
    ∙ ap in_range (
        signed_number-digits (print n) (blank ∷ rest) (print-ne-nil n) (print-IsDigit n)
        ∙ ap as_positive
            (scan_number-digits (print n) (blank ∷ rest) (print-ne-nil n) (print-IsDigit n) refl)
        ∙ ap (λ m. some (pos m, blank ∷ rest)) (value-print n))
    ∙ ground arith

-- ===== src/Text/Int.antt =====
-- Signed numbers, for the differences of two readings of the clock that the files hold.
use auction_simulator.Prelude.{
  ℕ, ◌+◌, ◌-◌, ◌≡◌, ◌≢◌, refl, ap, ◌∙◌, Option, none, some, [], ◌∷◌, append-nil, arith, leb, ◌==◌,
  All, if◌then◌else◌,
}
use auction_simulator.Text.Chars.{Bytes, blank}
use auction_simulator.Text.Decimal.{print, IsDigit, print-IsDigit, print-ne-nil, value-print}
use auction_simulator.Text.Scan.{
  skip_space, scan_number, print-IsWord, skip_space-word, scan_number-digits,
}

-- `negsuc n` is -(n + 1).
pub data ℤ : Type 0 where
  pos : ℕ → ℤ
  negsuc : ℕ → ℤ

abbrev pub neg : ℕ → ℤ
neg n = if n == 0 then pos 0 else negsuc (n - 1)

-- a - b
abbrev pub sub_ℕ : ℕ → ℕ → ℤ
sub_ℕ a b = if leb b a then pos (a - b) else neg (b - a)

-- `%ld`, written
unfoldable pub print_int : ℤ → Bytes
print_int (pos n) = print n
print_int (negsuc n) = b'-' ∷ print (n + 1)

abbrev negated : Option (ℕ × Bytes) → Option (ℤ × Bytes)
negated none = none
negated (some (n, rest)) = some (neg n, rest)

abbrev positive : Option (ℕ × Bytes) → Option (ℤ × Bytes)
positive none = none
positive (some (n, rest)) = some (pos n, rest)

-- A digit must follow the sign at once.
signed : Bytes → Option (ℤ × Bytes)
unfolding scan_number
signed [] = none
signed (c ∷ s) = if c == b'-' then negated (scan_number s) else positive (scan_number (c ∷ s))

-- `%ld`, read
unfoldable pub scan_int : Bytes → Option (ℤ × Bytes)
unfolding skip_space signed
scan_int s = signed (skip_space s)

skip_space-sign : (s : Bytes) → skip_space (b'-' ∷ s) ≡ b'-' ∷ s
unfolding skip_space
skip_space-sign s = refl

-- A printed number does not begin with the sign.
signed_digits : (ds : Bytes) → ds ≢ [] → All IsDigit ds → signed ds ≡ positive (scan_number ds)
unfolding signed
signed_digits [] ne h = absurd (ne refl)
signed_digits (d ∷ ds) ne h = ground arith

scan_number-print : (n : ℕ) → scan_number (print n) ≡ some (n, [])
scan_number-print n =
    rw append-nil at (scan_number-digits (print n) [] (print-ne-nil n) (print-IsDigit n) tt)
    ∙ ap (λ (k : ℕ). some (k, [])) (value-print n)

skip_space-print : (n : ℕ) → skip_space (print n) ≡ print n
skip_space-print n = rw append-nil at (skip_space-word (print n) [] (print-IsWord n))

signed-negsuc : (n : ℕ) → signed (b'-' ∷ print (n + 1)) ≡ some (negsuc n, [])
unfolding signed
signed-negsuc n = rw scan_number-print (ground arith)

skip_space-blank : (s : Bytes) → skip_space (blank ∷ s) ≡ skip_space s
unfolding skip_space
skip_space-blank s = refl

-- `%ld` reads back what `%ld` wrote behind a space.
pub scan_int_last : (z : ℤ) → scan_int (blank ∷ print_int z) ≡ some (z, [])
unfolding scan_int print_int
scan_int_last (pos n) =
    ap signed (skip_space-blank (print n) ∙ skip_space-print n)
    ∙ signed_digits (print n) (print-ne-nil n) (print-IsDigit n)
    ∙ ap positive (scan_number-print n)
scan_int_last (negsuc n) = signed-negsuc n

-- ===== src/Text/Scan.antt =====
-- The conversions `%s` and `%d` of `scanf`: each skips white space first. `none` means that the
-- conversion fails, and leaves its variable unset.
use auction_simulator.Prelude.{
  ℕ, ◌∙◌, append-nil, ◌≡◌, ◌≢◌, refl, true, false, Option, none, some, [], ◌∷◌, ◌++◌, arith, All,
  if◌then◌else◌,
}
use auction_simulator.Text.Chars.{Bytes, is_space, is_digit, blank}
use auction_simulator.Text.Decimal.{
  print, scan_digits, scan_digits-append, print-IsDigit, value-print, print-ne-nil, IsStop, IsDigit,
  value,
}

unfoldable pub skip_space : Bytes → Bytes
skip_space [] = []
skip_space (c ∷ s) = let rest = skip_space s in if is_space c then rest else c ∷ s

-- The bytes up to white space, and what follows.
unfoldable pub split_word : Bytes → Bytes × Bytes
split_word [] = ([], [])
split_word (c ∷ s) =
    let (word, rest) = split_word s in if is_space c then ([], c ∷ s) else (c ∷ word, rest)

unfoldable pub nonempty : Bytes × Bytes → Option (Bytes × Bytes)
nonempty ([], rest) = none
nonempty (c ∷ word, rest) = some (c ∷ word, rest)

-- `%s`
unfoldable pub scan_string : Bytes → Option (Bytes × Bytes)
unfolding skip_space split_word nonempty
scan_string s = nonempty (split_word (skip_space s))

unfoldable pub scan_number : Bytes → Option (ℕ × Bytes)
unfolding scan_digits
scan_number [] = none
scan_number (c ∷ s) = if is_digit c then some (scan_digits 0 (c ∷ s)) else none

-- `%d` and `%ld`, in fields that the program writes from numbers that are not negative.
unfoldable pub scan_nat : Bytes → Option (ℕ × Bytes)
unfolding skip_space scan_number
scan_nat s = scan_number (skip_space s)

-- A word that `%s` reads whole.
pub record IsWord (s : Bytes) : Type 0 where
  pub filled : s ≢ []
  pub solid : All (λ c. is_space c ≡ false) s

-- Text before which a word ends.
abbrev pub IsGap : Bytes → Type 0
IsGap [] = Unit
IsGap (c ∷ s) = is_space c ≡ true

split_word-append :
    (w rest : Bytes)
    → All (λ c. is_space c ≡ false) w
    → IsGap rest
    → split_word (w ++ rest) ≡ (w, rest)
unfolding split_word
split_word-append [] [] _ gap = refl
split_word-append [] (c ∷ rest) _ gap = rw gap
split_word-append (c ∷ w) rest (h, hs) gap = rw (h, split_word-append w rest hs gap)

pub skip_space-word : (w rest : Bytes) → IsWord w → skip_space (w ++ rest) ≡ w ++ rest
unfolding skip_space
skip_space-word [] rest h = absurd (h.filled refl)
skip_space-word (c ∷ w) rest h = rw (h.solid.0)

nonempty-word : (w rest : Bytes) → w ≢ [] → nonempty (w, rest) ≡ some (w, rest)
unfolding nonempty
nonempty-word [] rest h = absurd (h refl)
nonempty-word (c ∷ w) rest h = refl

-- `%s` on a word gives the word and stops behind it.
pub scan_string-word :
    (w rest : Bytes) → IsWord w → IsGap rest → scan_string (w ++ rest) ≡ some (w, rest)
unfolding scan_string
scan_string-word w rest h gap =
    rw (skip_space-word w rest h, split_word-append w rest h.solid gap)
      (nonempty-word w rest h.filled)

skip_space-blank : (s : Bytes) → skip_space (blank ∷ s) ≡ skip_space s
unfolding skip_space
skip_space-blank s = refl

pub scan_string-blank : (s : Bytes) → scan_string (blank ∷ s) ≡ scan_string s
unfolding scan_string
scan_string-blank s = refl

pub scan_nat-blank : (s : Bytes) → scan_nat (blank ∷ s) ≡ scan_nat s
unfolding scan_nat
scan_nat-blank s = refl

IsDigit-solid : (c : ℕ) → IsDigit c → is_space c ≡ false
IsDigit-solid c h = ground arith

digits-solid : (s : Bytes) → All IsDigit s → All (λ c. is_space c ≡ false) s
digits-solid [] h = tt
digits-solid (c ∷ s) (h, hs) = (IsDigit-solid c h, digits-solid s hs)

pub print-IsWord : (n : ℕ) → IsWord (print n)
print-IsWord n = record {
  filled = print-ne-nil n;
  solid = digits-solid (print n) (print-IsDigit n);
}

pub scan_number-digits :
    (ds rest : Bytes)
    → ds ≢ []
    → All IsDigit ds
    → IsStop rest
    → scan_number (ds ++ rest) ≡ some (value 0 ds, rest)
unfolding scan_number
scan_number-digits [] rest ne h stop = absurd (ne refl)
scan_number-digits (d ∷ ds) rest ne h stop =
    ground (arith, scan_digits-append (d ∷ ds) rest 0 h stop)

-- `%d` reads back what `%d` wrote.
pub scan_nat-print :
    (n : ℕ) (rest : Bytes) → IsStop rest → scan_nat (print n ++ rest) ≡ some (n, rest)
unfolding scan_nat
scan_nat-print n rest stop = rw (
  skip_space-word (print n) rest (print-IsWord n),
  scan_number-digits (print n) rest (print-ne-nil n) (print-IsDigit n) stop,
  value-print,
)

-- One field of a line, with the space that ends it, and the same behind the space before it.
pub scan_string-field :
    (w rest : Bytes) → IsWord w → scan_string (w ++ blank ∷ rest) ≡ some (w, blank ∷ rest)
scan_string-field w rest h = scan_string-word w (blank ∷ rest) h refl

pub scan_string-next :
    (w rest : Bytes) → IsWord w → scan_string (blank ∷ (w ++ blank ∷ rest)) ≡ some (w, blank ∷ rest)
scan_string-next w rest h = scan_string-blank _ ∙ scan_string-field w rest h

pub scan_number-next :
    (n : ℕ) (rest : Bytes) → scan_nat (blank ∷ (print n ++ blank ∷ rest)) ≡ some (n, blank ∷ rest)
scan_number-next n rest = scan_nat-blank _ ∙ scan_nat-print n (blank ∷ rest) refl

pub scan_string-print :
    (n : ℕ) (rest : Bytes)
    → scan_string (blank ∷ (print n ++ blank ∷ rest)) ≡ some (print n, blank ∷ rest)
scan_string-print n rest = scan_string-next (print n) rest (print-IsWord n)

pub scan_number_last : (n : ℕ) → scan_nat (blank ∷ print n) ≡ some (n, [])
scan_number_last n = scan_nat-blank _ ∙ rw append-nil at (scan_nat-print n [] tt)

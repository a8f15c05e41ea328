-- ===== src/Text/Decimal.antt =====
-- `printf("%d")`, `printf("%03d")` and `atoi` on numbers that are not negative, and their round trip.
use mathlib.Core.List.{foldl, foldl-append, cons-ne-nil, concat-ne-nil}
use auction_simulator.Prelude.{
  ℕ, zero, suc, ◌+◌, ◌-◌, ◌*◌, ◌/◌, ◌%◌, ◌<◌, ◌≤◌, ◌≡◌, ◌≢◌, refl, sym, ◌∙◌, ap, true, false, inl,
  inr, [], ◌∷◌, ◌++◌, arith, ltb, ltb→lt, ◌^◌, length, length-append, All, All-append,
  if◌then◌else◌, Bool-cases,
}
use auction_simulator.Text.Chars.{Bytes, codes, is_digit}

abbrev pub IsDigit : ℕ → Type 0
IsDigit c = (b'0' ≤ c) × (c ≤ b'9')

-- The digits of `n`, most significant first; a fuel above `n` is enough.
print_fuel : ℕ → ℕ → Bytes
print_fuel zero n = []
print_fuel (suc f) n = elim (ltb n 10) [
  | true ↦ (b'0' + n) ∷ []
  | false ↦ print_fuel f (n / 10) ++ (b'0' + n % 10) ∷ []
]

-- `%d`
unfoldable pub print : ℕ → Bytes
unfolding print_fuel
print n = print_fuel (suc n) n

-- `%03d`
unfoldable pub print3 : ℕ → Bytes
unfolding print
print3 n = if ltb n 10 then b'0' ∷ b'0' ∷ print n else if ltb n 100 then b'0' ∷ print n else print n

-- The number that leading digits spell behind `n`, and what follows them.
unfoldable pub scan_digits : ℕ → Bytes → ℕ × Bytes
scan_digits n [] = (n, [])
scan_digits n (c ∷ s) =
    let rest = scan_digits (n * 10 + (c - b'0')) s in if is_digit c then rest else (n, c ∷ s)

-- Every text that the program hands to `atoi` is empty or begins with a digit, so that no white
-- space is skipped and no sign is read.
unfoldable pub atoi : Bytes → ℕ
unfolding scan_digits
atoi s = (scan_digits 0 s).0

abbrev pub value : ℕ → Bytes → ℕ
value = foldl (λ n c. n * 10 + (c - b'0'))

-- Text that does not go on with a digit.
abbrev pub IsStop : Bytes → Type 0
IsStop [] = Unit
IsStop (c ∷ s) = is_digit c ≡ false

pub scan_digits-append :
    (ds rest : Bytes) (n : ℕ)
    → All IsDigit ds
    → IsStop rest
    → scan_digits n (ds ++ rest) ≡ (value n ds, rest)
unfolding scan_digits
scan_digits-append [] [] n _ stop = refl
scan_digits-append [] (c ∷ rest) n _ stop = rw stop
scan_digits-append (d ∷ ds) rest n (h, hs) stop =
    ground (arith, scan_digits-append ds rest (n * 10 + (d - b'0')) hs stop)

print_fuel_small : (f n : ℕ) → ltb n 10 ≡ true → print_fuel (suc f) n ≡ (b'0' + n) ∷ []
unfolding print_fuel
print_fuel_small f n h = ground arith

print_fuel_big :
    (f n : ℕ)
    → ltb n 10 ≡ false
    → print_fuel (suc f) n ≡ print_fuel f (n / 10) ++ (b'0' + n % 10) ∷ []
unfolding print_fuel
print_fuel_big f n h = ground arith

print_fuel-IsDigit : (f n : ℕ) → All IsDigit (print_fuel f n)
print_fuel-IsDigit zero n = unfold print_fuel in tt
print_fuel-IsDigit (suc f) n = elim (Bool-cases (ltb n 10)) [
  | inl small ↦ rw (print_fuel_small f n small) (ground arith)
  | inr big ↦
      rw (print_fuel_big f n big)
        (All-append IsDigit (print_fuel f (n / 10)) _ (print_fuel-IsDigit f (n / 10)) (omega arith))
]

value-print_fuel : (f n : ℕ) → n < f → value 0 (print_fuel f n) ≡ n
value-print_fuel zero n h = absurd (omega arith)
value-print_fuel (suc f) n h = elim (Bool-cases (ltb n 10)) [
  | inl small ↦ rw (print_fuel_small f n small) (omega arith)
  | inr big ↦
      rw (print_fuel_big f n big, foldl-append, value-print_fuel f (n / 10) (ground arith))
        (omega arith)
]

pub print-IsDigit : (n : ℕ) → All IsDigit (print n)
unfolding print
print-IsDigit n = print_fuel-IsDigit (suc n) n

pub value-print : (n : ℕ) → value 0 (print n) ≡ n
unfolding print
value-print n = value-print_fuel (suc n) n (omega arith)

pub print3-IsDigit : (n : ℕ) → All IsDigit (print3 n)
unfolding print3
print3-IsDigit n = ground (arith, print-IsDigit n)

pub value-print3 : (n : ℕ) → value 0 (print3 n) ≡ n
unfolding print3
value-print3 n = ground (arith, value-print n)

-- A number printed by `%d`, whatever follows it that is no digit, is read back by `atoi`.
pub atoi-print : (n : ℕ) (rest : Bytes) → IsStop rest → atoi (print n ++ rest) ≡ n
unfolding atoi
atoi-print n rest stop =
    ap (λ r. r.0) (scan_digits-append (print n) rest 0 (print-IsDigit n) stop) ∙ value-print n

-- The same for `%03d`.
pub atoi-print3 : (n : ℕ) (rest : Bytes) → IsStop rest → atoi (print3 n ++ rest) ≡ n
unfolding atoi
atoi-print3 n rest stop =
    ap (λ r. r.0) (scan_digits-append (print3 n) rest 0 (print3-IsDigit n) stop) ∙ value-print3 n

pub print3-injective : (m n : ℕ) → print3 m ≡ print3 n → m ≡ n
print3-injective m n e = sym (value-print3 m) ∙ ap (value 0) e ∙ value-print3 n

-- Printed numbers are not empty.
print_fuel_ne_nil : (f n : ℕ) → print_fuel (suc f) n ≢ []
print_fuel_ne_nil f n = elim (Bool-cases (ltb n 10)) [
  | inl small ↦ rw (print_fuel_small f n small) (cons-ne-nil _ _)
  | inr big ↦ rw (print_fuel_big f n big) (concat-ne-nil _ (print_fuel f (n / 10)))
]

pub print-ne-nil : (n : ℕ) → print n ≢ []
unfolding print
print-ne-nil n = print_fuel_ne_nil n n

ten_pos : (k : ℕ) → 0 < 10 ^ k
ten_pos zero = omega arith
ten_pos (suc k) = omega (arith, ten_pos k)

-- How many digits are printed.
length-print_fuel_upper : (k f n : ℕ) → n < 10 ^ suc k → length (print_fuel f n) ≤ suc k
length-print_fuel_upper k zero n h = unfold print_fuel in omega arith
length-print_fuel_upper zero (suc f) n h = rw (print_fuel_small f n (ground arith)) (omega arith)
length-print_fuel_upper (suc k) (suc f) n h = elim (Bool-cases (ltb n 10)) [
  | inl small ↦ rw (print_fuel_small f n small) (omega arith)
  | inr big ↦ rw (print_fuel_big f n big) (
      omega (
        arith,
        length-append (print_fuel f (n / 10)) ((b'0' + n % 10) ∷ []),
        length-print_fuel_upper k f (n / 10) (omega arith),
      ))
]

length-print_fuel_lower : (k f n : ℕ) → n < f → 10 ^ k ≤ n → k < length (print_fuel f n)
length-print_fuel_lower k zero n h le = absurd (omega arith)
length-print_fuel_lower zero (suc f) n h le = elim (Bool-cases (ltb n 10)) [
  | inl small ↦ rw (print_fuel_small f n small) (omega arith)
  | inr big ↦
      rw (print_fuel_big f n big)
        (omega (arith, length-append (print_fuel f (n / 10)) ((b'0' + n % 10) ∷ [])))
]
length-print_fuel_lower (suc k) (suc f) n h le = elim (Bool-cases (ltb n 10)) [
  | inl small ↦ absurd (omega (arith, ten_pos k, ltb→lt n 10 small))
  | inr big ↦ rw (print_fuel_big f n big) (
      omega (
        arith,
        length-append (print_fuel f (n / 10)) ((b'0' + n % 10) ∷ []),
        length-print_fuel_lower k f (n / 10) (ground arith) (omega arith),
      ))
]

pub length-print_upper : (k n : ℕ) → n < 10 ^ suc k → length (print n) ≤ suc k
unfolding print
length-print_upper k n h = length-print_fuel_upper k (suc n) n h

pub length-print_lower : (k n : ℕ) → 10 ^ k ≤ n → k < length (print n)
unfolding print
length-print_lower k n h = length-print_fuel_lower k (suc n) n (omega arith) h

print_runs :
    (print 1700000000 ≡ codes "1700000000")
    × (print3 7 ≡ codes "007")
    × (print3 42 ≡ codes "042")
    × (atoi (codes "042.txt") ≡ 42)
unfolding print print3 atoi
print_runs = (refl, refl, refl, refl)

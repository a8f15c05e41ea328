-- ===== src/Client/Requests/Numbers.antt =====
-- Numbers and words in the client's requests: their lengths, and the tests of the server on them.
use mathlib.Core.List.{foldl-append}
use auction_simulator.Prelude.{
  ℕ, zero, suc, ◌-◌, ◌^◌, ◌<◌, ◌≡◌, ◌≢◌, refl, sym, ◌∙◌, ap, Bool, true, inl, inr, Bool-cases, ltb,
  ltb→lt, [], ◌∷◌, arith, length, length-append, append-nil, All,
}
use auction_simulator.Text.{Bytes, all, is_digit, is_alnum, c_string, c_string_whole, is_filled}
use auction_simulator.Text.Decimal.{
  print, print3, atoi, IsDigit, value, value-print, scan_digits, scan_digits-append, print-ne-nil,
  length-print_upper, length-print_lower,
}
use auction_simulator.Text.Int.{pos}
use auction_simulator.Text.Pad.{replicate, print_padded, print_padded-IsDigit}
use auction_simulator.Socket.Fields.{is_plain}

module _ (test test' : ℕ → Bool) (weaker : (c : ℕ) → test c ≡ true → test' c ≡ true) where
  pub all-weaker : (s : Bytes) → all test s ≡ true → all test' s ≡ true
  unfolding all
  all-weaker [] h = refl
  all-weaker (c ∷ s) h = ground (arith, weaker c, all-weaker s)

pub digits-plain : (s : Bytes) → all is_digit s ≡ true → all is_plain s ≡ true
digits-plain = all-weaker is_digit is_plain (λ c h. ground arith)

pub alnums-plain : (s : Bytes) → all is_alnum s ≡ true → all is_plain s ≡ true
alnums-plain = all-weaker is_alnum is_plain (λ c h. ground arith)

pub digits_whole : (s : Bytes) → all is_digit s ≡ true → c_string s ≡ s
digits_whole s h = c_string_whole s (all-weaker is_digit is_filled (λ c h. ground arith) s h)

pub alnums_whole : (s : Bytes) → all is_alnum s ≡ true → c_string s ≡ s
alnums_whole s h = c_string_whole s (all-weaker is_alnum is_filled (λ c h. ground arith) s h)

pub all-IsDigit : (s : Bytes) → All IsDigit s → all is_digit s ≡ true
unfolding all
all-IsDigit [] h = refl
all-IsDigit (c ∷ s) (h, hs) = ground (arith, all-IsDigit s hs)

length-replicate : (n c : ℕ) → length (replicate n c) ≡ n
unfolding replicate
length-replicate zero c = refl
length-replicate (suc n) c = ap suc (length-replicate n c)

-- `%0wd` of a number of at most `w` digits has `w` bytes.
pub length-print_padded : (k n : ℕ) → n < 10 ^ suc k → length (print_padded (suc k) (pos n)) ≡ suc k
unfolding print_padded
length-print_padded k n h = omega (
  arith,
  length-append (replicate (suc k - length (print n)) b'0') (print n),
  length-replicate (suc k - length (print n)) b'0',
  length-print_upper k n h,
)

value-zeros : (n : ℕ) → value 0 (replicate n b'0') ≡ 0
unfolding replicate
value-zeros zero = refl
value-zeros (suc n) = value-zeros n

-- `atoi` reads the number back.
pub atoi-print_padded : (w n : ℕ) → atoi (print_padded w (pos n)) ≡ n
unfolding atoi print_padded
atoi-print_padded w n =
    ap (λ t. (scan_digits 0 t).0) (sym (append-nil (print_padded w (pos n))))
    ∙ ap (λ r. r.0) (scan_digits-append (print_padded w (pos n)) [] 0 (print_padded-IsDigit w n) tt)
    ∙ rw (foldl-append, value-zeros (w - length (print n))) (value-print n)

filled : (s : Bytes) → s ≢ [] → 0 < length s
filled [] h = absurd (h refl)
filled (c ∷ s) h = omega arith

-- `%03d` is the name of an auction.
pub print_padded-print3 : (n : ℕ) → print_padded 3 (pos n) ≡ print3 n
unfolding print_padded print3 replicate
print_padded-print3 n = elim (Bool-cases (ltb n 10)) [
  | inl small ↦
      let e : length (print n) ≡ 1 =
        omega
          (arith, ltb→lt n 10 small, length-print_upper 0 n, filled (print n) (print-ne-nil n)) in
      rw (e, small) refl
  | inr big ↦ elim (Bool-cases (ltb n 100)) [
    | inl small ↦
        let e : length (print n) ≡ 2 = omega (
          arith,
          ltb→lt n 100 small,
          length-print_upper 1 n,
          length-print_lower 1 n (ground arith),
        ) in
        rw (e, big, small) refl
    | inr huge ↦
        let e : 3 - length (print n) ≡ 0 = omega (arith, length-print_lower 2 n (ground arith)) in
        rw (e, big, huge) refl
  ]
]

pub print3-ne-nil : (n : ℕ) → print3 n ≢ []
unfolding print3
print3-ne-nil n = ground (arith, print-ne-nil n)

-- ===== src/Client/Requests/Admitted.antt =====
-- The fields of the requests of the client are ones that the server reads and accepts.

use auction_simulator.Prelude.{ℕ, suc, ◌^◌, ◌<◌, ◌≡◌, ◌≢◌, refl, true, [], ◌∷◌, arith, length}
use auction_simulator.Text.{Bytes, all, is_digit}
use auction_simulator.Text.Int.{pos}
use auction_simulator.Text.Pad.{print_padded, print_padded-IsDigit}
use auction_simulator.Input.Verify.{verify_uid, verify_password, verify_aid, verify_bid_value}
use auction_simulator.Client.Requests.Laws.{Sendable}
use auction_simulator.Client.Requests.Numbers.{
  digits_whole, alnums_whole, digits-plain, alnums-plain, all-IsDigit, length-print_padded,
  atoi-print_padded,
}

pub uid-Sendable : (uid : Bytes) → verify_uid uid ≡ true → Sendable 6 uid
unfolding verify_uid
uid-Sendable uid h = record {
  fits = ground arith;
  plain = digits-plain uid (ground arith);
  whole = digits_whole uid (ground arith);
}

pub password-Sendable : (password : Bytes) → verify_password password ≡ true → Sendable 8 password
unfolding verify_password
password-Sendable password h = record {
  fits = ground arith;
  plain = alnums-plain password (ground arith);
  whole = alnums_whole password (ground arith);
}

padded-digits : (w n : ℕ) → all is_digit (print_padded w (pos n)) ≡ true
padded-digits w n = all-IsDigit (print_padded w (pos n)) (print_padded-IsDigit w n)

pub number-Sendable : (k n : ℕ) → n < 10 ^ suc k → Sendable (suc k) (print_padded (suc k) (pos n))
number-Sendable k n h = record {
  fits = omega (arith, length-print_padded k n h);
  plain = digits-plain _ (padded-digits (suc k) n);
  whole = digits_whole _ (padded-digits (suc k) n);
}

pub long-ne-nil : (s : Bytes) → 0 < length s → s ≢ []
long-ne-nil [] h e = omega arith
long-ne-nil (c ∷ s) h e = cc e

pub uid-ne-nil : (uid : Bytes) → verify_uid uid ≡ true → uid ≢ []
unfolding verify_uid
uid-ne-nil uid h = long-ne-nil uid (ground arith)

pub password-ne-nil : (password : Bytes) → verify_password password ≡ true → password ≢ []
unfolding verify_password
password-ne-nil password h = long-ne-nil password (ground arith)

pub number-ne-nil : (k n : ℕ) → n < 10 ^ suc k → print_padded (suc k) (pos n) ≢ []
number-ne-nil k n h = long-ne-nil _ (omega (arith, length-print_padded k n h))

pub verify_aid-number : (n : ℕ) → n < 1000 → verify_aid (print_padded 3 (pos n)) ≡ true
unfolding verify_aid
verify_aid-number n h = rw (padded-digits 3 n, atoi-print_padded 3 n) (ground arith)

pub verify_bid_value-number :
    (n : ℕ) → n < 1000000 → verify_bid_value (print_padded 6 (pos n)) ≡ true
unfolding verify_bid_value
verify_bid_value-number n h = rw (padded-digits 6 n, length-print_padded 5 n (omega arith)) refl

-- The lengths of what `%6s` and `%8s` print.
pub uid_whole : (uid : Bytes) → verify_uid uid ≡ true → length uid ≡ 6
unfolding verify_uid
uid_whole uid h = ground arith

pub password_whole : (password : Bytes) → verify_password password ≡ true → length password ≡ 8
unfolding verify_password
password_whole password h = ground arith

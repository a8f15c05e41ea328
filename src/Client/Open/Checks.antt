-- ===== src/Client/Open/Checks.antt =====
-- The checks of `openAuction` against those of the server.
use auction_simulator.Prelude.{
  ℕ, suc, ◌^◌, ◌≤◌, ◌<◌, ◌≡◌, ◌≢◌, refl, sym, ◌∙◌, ap, Bool, true, ◌||◌, none, [], ◌∷◌, ◌==◌, arith,
  append-nil, length,
}
use auction_simulator.Text.{Bytes, all, is_digit, is_alnum, c_string_whole, is_filled}
use auction_simulator.Text.Decimal.{
  print, atoi, atoi-print, print-IsDigit, print-ne-nil, length-print_upper,
}
use auction_simulator.Text.Int.{pos}
use auction_simulator.Input.Verify.{
  verify_uid, verify_password, verify_name, verify_start_value, verify_timeactive,
  verify_asset_fname, verify_asset_fsize, verify_open_args,
}
use auction_simulator.Socket.Fields.{is_plain}
use auction_simulator.Client.Requests.Laws.{Sendable}
use auction_simulator.Client.Open.{is_fname_char, extension, valid_filename, open_refusal}
use auction_simulator.Client.Requests.Numbers.{all-weaker, digits-plain, digits_whole, all-IsDigit}

abbrev is_name_text : ℕ → Bool
is_name_text c = is_alnum c || c == b'_' || c == b'-'

abbrev is_file_text : ℕ → Bool
is_file_text c = is_alnum c || c == b'.' || c == b'_' || c == b'-'

filled : (s : Bytes) → s ≢ [] → 0 < length s
filled [] h = absurd (h refl)
filled (c ∷ s) h = omega arith

valid_filename-parts :
    (filename : Bytes)
    → valid_filename filename ≡ true
    → (length filename ≤ 24) × (all is_fname_char filename ≡ true) × (0 < length filename)
unfolding valid_filename
valid_filename-parts [] h = absurd (unfold extension all in cc h)
valid_filename-parts (c ∷ s) h = (ground arith, ground arith, omega arith)

-- A file name that the client accepts is accepted by the server.
pub valid_filename-verify :
    (filename : Bytes) → valid_filename filename ≡ true → verify_asset_fname filename ≡ true
unfolding verify_asset_fname
valid_filename-verify filename h =
    let (short, chars, some_byte) = valid_filename-parts filename h in
    let wide = all-weaker is_fname_char is_file_text (λ c k. ground arith) filename chars in
    ground arith

number-digits : (n : ℕ) → all is_digit (print n) ≡ true
number-digits n = all-IsDigit (print n) (print-IsDigit n)

atoi-number : (n : ℕ) → atoi (print n) ≡ n
atoi-number n = ap atoi (sym (append-nil (print n))) ∙ atoi-print n [] tt

verify_start_value-number : (n : ℕ) → n < 10 ^ 6 → verify_start_value (print n) ≡ true
unfolding verify_start_value
verify_start_value-number n h =
    ground (arith, number-digits n, length-print_upper 5 n h, filled (print n) (print-ne-nil n))

verify_timeactive-number : (n : ℕ) → n < 10 ^ 5 → verify_timeactive (print n) ≡ true
unfolding verify_timeactive
verify_timeactive-number n h =
    ground (arith, number-digits n, length-print_upper 4 n h, filled (print n) (print-ne-nil n))

verify_asset_fsize-number : (n : ℕ) → n ≤ 10_000_000 → verify_asset_fsize (print n) ≡ true
unfolding verify_asset_fsize
verify_asset_fsize-number n h = ground (
  arith,
  number-digits n,
  atoi-number n,
  length-print_upper 7 n (omega arith),
  filled (print n) (print-ne-nil n),
)

-- What `openAuction` has read, and found to be in order.
pub record Offer (name asset_fname : Bytes) (value time fsize : ℕ) : Type 0 where
  pub named : verify_name name ≡ true
  pub few : value < 10 ^ 6
  pub passed :
      open_refusal fsize (record {
        name = name;
        asset_fname = asset_fname;
        start_value = pos value;
        timeactive = pos time;
      })
      ≡ none

module _ (name asset_fname : Bytes) (value time fsize : ℕ)
    (o : Offer name asset_fname value time fsize) where
  pub offer-size : fsize ≤ 10_000_000
  unfolding open_refusal
  offer-size = ground (arith, o.passed)

  pub offer-time : time < 10 ^ 5
  unfolding open_refusal
  offer-time = ground (arith, o.passed)

  pub offer-fname : valid_filename asset_fname ≡ true
  unfolding open_refusal
  offer-fname = ground (arith, o.passed)

  -- The server accepts the fields of an offer.
  pub offer-verify :
      (uid password : Bytes)
      → verify_uid uid ≡ true
      → verify_password password ≡ true
      → verify_open_args uid password name (print value) (print time) asset_fname (print fsize)
        ≡ true
  unfolding verify_open_args
  offer-verify uid password u q =
      rw
        (
          u,
          q,
          o.named,
          verify_start_value-number value o.few,
          verify_timeactive-number time offer-time,
          valid_filename-verify asset_fname offer-fname,
          verify_asset_fsize-number fsize offer-size,
        )
        refl

  pub name-Sendable : Sendable 10 name
  unfolding verify_name
  name-Sendable = record {
    fits = ground (arith, o.named);
    plain = all-weaker is_name_text is_plain (λ c k. ground arith) name (ground (arith, o.named));
    whole =
        c_string_whole name
          (all-weaker is_name_text is_filled (λ c k. ground arith) name (ground (arith, o.named)));
  }

  pub name-filled : 0 < length name
  unfolding verify_name
  name-filled = ground (arith, o.named)

  pub fname-Sendable : Sendable 24 asset_fname
  fname-Sendable =
      let (short, chars, some_byte) = valid_filename-parts asset_fname offer-fname in
      record {
        fits = short;
        plain = all-weaker is_fname_char is_plain (λ c k. ground arith) asset_fname chars;
        whole =
            c_string_whole asset_fname
              (all-weaker is_fname_char is_filled (λ c k. ground arith) asset_fname chars);
      }

  pub fname-filled : 0 < length asset_fname
  fname-filled = (valid_filename-parts asset_fname offer-fname).2

pub print-Sendable : (k n : ℕ) → n < 10 ^ suc k → Sendable (suc k) (print n)
print-Sendable k n h = record {
  fits = length-print_upper k n h;
  plain = digits-plain (print n) (number-digits n);
  whole = digits_whole (print n) (number-digits n);
}

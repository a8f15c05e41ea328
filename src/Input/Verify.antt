-- ===== src/Input/Verify.antt =====
-- The `verify_…` functions of server/input_funcs.c, and the three of server/tcp_functions.c that
-- call them. A result 1 is `true`.
pub mod Laws
use auction_simulator.Prelude.{
  ℕ, Bool, true, false, not, ◌&&◌, ◌||◌, ltb, ◌==◌, length, if◌then◌else◌,
}
use auction_simulator.Text.{Bytes, all, is_digit, is_alnum}
use auction_simulator.Text.Decimal.{atoi}

unfoldable pub verify_uid : Bytes → Bool
unfolding all
verify_uid uid = length uid == 6 && all is_digit uid

unfoldable pub verify_password : Bytes → Bool
unfolding all
verify_password password = length password == 8 && all is_alnum password

-- `atoi` of digits is not negative, which leaves the second test. The empty text passes.
unfoldable pub verify_aid : Bytes → Bool
unfolding all atoi
verify_aid aid = all is_digit aid && not (ltb 999 (atoi aid))

abbrev is_name_char : ℕ → Bool
is_name_char c = is_alnum c || c == b'_' || c == b'-'

abbrev is_fname_char : ℕ → Bool
is_fname_char c = is_alnum c || c == b'.' || c == b'_' || c == b'-'

-- `strlen(s) > most || strlen(s) < 1` is the refusal.
abbrev fits : ℕ → Bytes → Bool
fits most s = not (ltb most (length s) || ltb (length s) 1)

unfoldable pub verify_name : Bytes → Bool
unfolding all
verify_name name = fits 10 name && all is_name_char name

unfoldable pub verify_start_value : Bytes → Bool
unfolding all
verify_start_value start_value = fits 6 start_value && all is_digit start_value

unfoldable pub verify_timeactive : Bytes → Bool
unfolding all
verify_timeactive timeactive = fits 5 timeactive && all is_digit timeactive

unfoldable pub verify_asset_fname : Bytes → Bool
unfolding all
verify_asset_fname asset_fname = fits 24 asset_fname && all is_fname_char asset_fname

abbrev pub max_asset_fsize : ℕ
max_asset_fsize = 10_000_000

unfoldable pub verify_asset_fsize : Bytes → Bool
unfolding all atoi
verify_asset_fsize asset_fsize =
    fits 8 asset_fsize && all is_digit asset_fsize && not (ltb max_asset_fsize (atoi asset_fsize))

unfoldable pub verify_bid_value : Bytes → Bool
unfolding all
verify_bid_value bid_value = fits 6 bid_value && all is_digit bid_value

unfoldable pub verify_open_args : Bytes → Bytes → Bytes → Bytes → Bytes → Bytes → Bytes → Bool
unfolding verify_uid verify_password verify_name verify_start_value verify_timeactive
    verify_asset_fname verify_asset_fsize
verify_open_args uid password name start_value timeactive asset_fname fsize =
    verify_uid uid
    && verify_password password
    && verify_name name
    && verify_start_value start_value
    && verify_timeactive timeactive
    && verify_asset_fname asset_fname
    && verify_asset_fsize fsize

unfoldable pub verify_bid_args : Bytes → Bytes → Bytes → Bytes → Bool
unfolding verify_uid verify_password verify_aid verify_bid_value
verify_bid_args uid password aid value =
    verify_uid uid && verify_password password && verify_aid aid && verify_bid_value value

unfoldable pub verify_close_args : Bytes → Bytes → Bytes → Bool
unfolding verify_uid verify_password verify_aid
verify_close_args uid password aid = verify_uid uid && verify_password password && verify_aid aid

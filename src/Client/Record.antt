-- ===== src/Client/Record.antt =====
-- `showRecord` of client/functions.c: a machine that prints the tokens of a record by their place.
pub mod Laws
pub mod Shows
pub mod Reply
pub mod Answer
pub mod Served
pub mod Whole
use auction_simulator.Prelude.{
  ℕ, zero, suc, ◌+◌, Bool, true, false, Option, none, some, [], ◌∷◌, ◌++◌, ◌==◌, length,
  if◌then◌else◌,
}
use auction_simulator.Text.{Bytes, codes, newline, blank}
use auction_simulator.Client.Buffer.{starts, verify_buffer, read_buffer_token, next_index}
use auction_simulator.Client.Listing.{unread}

-- The values 0 to 12 of `message_part`.
pub data Part : Type 0 where
  host_uid auction_name asset_filename start_value start_date time_active : Part
  section bidder_uid bid_value bid_date bid_sec_time end_date end_sec_time : Part

-- `message_part`, `first_bid`, the index `i` and what has been printed.
pub record Printer : Type 0 where
  pub part : Part
  pub first_bid : Bool
  pub index : Option ℕ
  pub out : Bytes

-- "<label>%s\n"
abbrev pub labelled : Bytes → Bytes → Bytes
labelled label token = label ++ (token ++ newline ∷ [])

-- "<label>%s %s\n"
abbrev pub labelled_pair : Bytes → Bytes → Bytes → Bytes
labelled_pair label token token2 = label ++ (token ++ blank ∷ (token2 ++ newline ∷ []))

abbrev pub bids_title : Bytes
bids_title = codes "--------------------BIDS---------------------\n"

abbrev pub closing_title : Bytes
closing_title = codes "------------Closing Information--------------\n"

abbrev pub record_title : Bytes
record_title = codes "----------------Auction record---------------\n"

abbrev pub parse_error : Bytes
parse_error = codes "Error parsing server response.\n"

-- One field is printed, and the next part follows.
abbrev put_token : Part → Bytes → Printer → Option Printer
put_token part text s = some (record s { part = part; out = s.out ++ text })

-- The cases that read a second token, `token2`, from `++i`.
abbrev put_pair : Part → Bytes → Bytes → Printer → Option (Bytes × Option ℕ) → Option Printer
put_pair part label token s none = none
put_pair part label token s (some (token2, i)) =
    some (record s { part = part; index = i; out = s.out ++ labelled_pair label token token2 })

abbrev stop : Printer → Option Printer
stop s = some (record s { index = none; out = s.out ++ parse_error })

-- Case 6: "B" or "E".
unfoldable pub choose_section : Bytes → Printer → Option Printer
choose_section [] s = stop s
choose_section (c ∷ d ∷ token) s = stop s
choose_section (c ∷ []) s =
    if c == b'B'
    then some (record s { part = bidder_uid })
    else if c == b'E'
    then some (record s { part = end_date })
    else stop s

abbrev pub bid_heading : Bool → Bytes
bid_heading true = bids_title
bid_heading false = newline ∷ []

-- The `switch`, with the token at hand and `index` behind it.
unfoldable pub print_token : Bytes → Bytes → Printer → Part → Option Printer
unfolding choose_section
print_token buffer token s host_uid = put_token auction_name (labelled (codes "Host UID: ") token) s
print_token buffer token s auction_name =
    put_token asset_filename (labelled (codes "Auction Name: ") token) s
print_token buffer token s asset_filename =
    put_token start_value (labelled (codes "Asset Filename: ") token) s
print_token buffer token s start_value =
    put_token start_date (labelled (codes "Start Value: ") token) s
print_token buffer token s start_date =
    put_pair time_active (codes "Start Date-Time: ") token s
      (read_buffer_token buffer 25 (next_index s.index))
print_token buffer token s time_active =
    put_token section (labelled (codes "Time Active: ") token) s
print_token buffer token s section = choose_section token s
print_token buffer token s bidder_uid = some (record s {
  part = bid_value;
  first_bid = false;
  out = s.out ++ (bid_heading s.first_bid ++ labelled (codes "Bidder UID: ") token);
})
print_token buffer token s bid_value = put_token bid_date (labelled (codes "Bid Value: ") token) s
print_token buffer token s bid_date =
    put_pair bid_sec_time (codes "Bid Date-Time: ") token s
      (read_buffer_token buffer 25 (next_index s.index))
print_token buffer token s bid_sec_time =
    put_token section (labelled (codes "Bid Sec Time: ") token) s
print_token buffer token s end_date =
    put_pair end_sec_time (codes "End Date-Time: ") token
      (record s { out = s.out ++ closing_title }) (read_buffer_token buffer 25 (next_index s.index))
print_token buffer token s end_sec_time =
    some (record s { index = none; out = s.out ++ labelled (codes "End Sec Time: ") token })

-- The loop `for (int i = 7; i > 0; i++)`, with the rounds that are left.
unfoldable pub print_record : ℕ → Bytes → ℕ → Printer → Option Bytes
print_record zero buffer i s = none
print_record (suc n) buffer i s = elim (read_buffer_token buffer 25 i) [
  | none ↦ none
  | some (token, j) ↦ elim (print_token buffer token (record s { index = j }) s.part) [
    | none ↦ none
    | some s' ↦ elim s'.index [ none ↦ some s'.out | some k ↦ print_record n buffer (k + 1) s' ]
  ]
]

abbrev pub first_state : Printer
first_state = record { part = host_uid; first_bid = true; index = none; out = record_title }

-- A round reads past a byte at least, unless the index starts again at 0.
unfoldable pub record_answer : Bytes → Option Bytes
record_answer buffer =
    if verify_buffer buffer
    then (if starts (codes "RRC NOK") buffer
        then some (codes "Error showing record: no such auction.\n")
        else if starts (codes "RRC OK ") buffer
        then print_record (length buffer) buffer 7 first_state
        else some (codes "Server responded with an error when trying to show record.\n"))
    else some unread

-- ===== src/Client/Listing.antt =====
-- The lists of `listAllAuctions`, `myAuctions` and `myBids` in client/functions.c: each prints the
-- tokens of a reply in pairs.
pub mod Laws
pub mod Answers
pub mod Bounds
use auction_simulator.Prelude.{
  ℕ, zero, suc, ◌+◌, Option, none, some, [], ◌∷◌, ◌++◌, length, if◌then◌else◌,
}
use auction_simulator.Text.{Bytes, codes, newline, blank}
use auction_simulator.Text.Pad.{print_right}
use auction_simulator.Client.Buffer.{starts, verify_buffer, read_buffer_token, next_index}

-- "%s " and "%s\n"
abbrev pub pair_line : Bytes → Bytes → Bytes
pair_line token token2 = (token ++ blank ∷ []) ++ (token2 ++ newline ∷ [])

-- The loop `for (int i = 7; i > 0; i++)`, with the rounds that are left, and what it has printed.
unfoldable pub print_pairs : ℕ → Bytes → ℕ → Bytes → Option Bytes
print_pairs zero buffer i out = none
print_pairs (suc n) buffer i out = elim (read_buffer_token buffer 4 i) [
  | none ↦ none
  | some (token, j) ↦ elim (read_buffer_token buffer 4 (next_index j)) [
    | none ↦ none
    | some (token2, none) ↦ some (out ++ pair_line token token2)
    | some (token2, some k) ↦ print_pairs n buffer (k + 1) (out ++ pair_line token token2)
  ]
]

abbrev pub unread : Bytes
unread = codes "Error reading server response.\n"

-- A round reads past a byte at least, unless the index starts again at 0.
unfoldable pub list_answer : Bytes → Option Bytes
list_answer buffer =
    if verify_buffer buffer
    then (if starts (codes "RLS OK") buffer
        then print_pairs (length buffer) buffer 7 (codes "Auctions currently open:\n")
        else if starts (codes "RLS NOK") buffer
        then some (codes "No auctions are currently open.\n")
        else some (codes "Unexpected server response: " ++ (buffer ++ newline ∷ [])))
    else some unread

unfoldable pub my_auctions_answer : Bytes → Bytes → Option Bytes
my_auctions_answer uid buffer =
    if verify_buffer buffer
    then (if starts (codes "RMA NOK") buffer
        then some (codes "User has no ongoing auctions.\n")
        else if starts (codes "RMA NLG") buffer
        then some (codes "User is not logged in.\n")
        else if starts (codes "RMA OK") buffer
        then print_pairs (length buffer) buffer 7
            (codes "User " ++ (print_right 6 uid ++ codes " auctions:\n"))
        else some (codes "Server responded with an error when trying to list auctions.\n"))
    else some unread

unfoldable pub my_bids_answer : Bytes → Option Bytes
my_bids_answer buffer =
    if verify_buffer buffer
    then (if starts (codes "RMB NOK") buffer
        then some (codes "You have no ongoing bids!\n")
        else if starts (codes "RMB NLG") buffer
        then some (codes "Bid listing error: user is not logged in.\n")
        else if starts (codes "RMB OK") buffer
        then print_pairs (length buffer) buffer 7 (codes "Your current bids:\n")
        else some (codes "Server responded with an error when trying to list bids.\n"))
    else some unread

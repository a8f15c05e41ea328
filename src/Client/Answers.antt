-- ===== src/Client/Answers.antt =====
-- What client/functions.c prints of the replies that are not lists or records; for login, logout and
-- unregister with the result.
use auction_simulator.Prelude.{Bool, true, false, Option, none, some, ◌++◌, drop, if◌then◌else◌}
use auction_simulator.Text.{Bytes, codes}
use auction_simulator.Text.Int.{ℤ, print_int}
use auction_simulator.Text.Pad.{print_padded, scan_d}
use auction_simulator.Client.Buffer.{starts, verify_buffer}
use auction_simulator.Client.Listing.{unread}

unfoldable pub login_answer : Bytes → Bool × Bytes
login_answer buffer =
    if verify_buffer buffer
    then (if starts (codes "RLI OK") buffer
        then (true, codes "User is now logged in.\n")
        else if starts (codes "RLI REG") buffer
        then (true, codes "New user successfully created and logged in.\n")
        else if starts (codes "RLI NOK") buffer
        then (false, codes "Password doesn't match.\n")
        else (false, codes "Error logging in.\n"))
    else (false, unread)

unfoldable pub logout_answer : Bytes → Bool × Bytes
logout_answer buffer =
    if verify_buffer buffer
    then (if starts (codes "RLO OK") buffer
        then (true, codes "User was correctly logged out.\n")
        else if starts (codes "RLO NOK") buffer
        then (false, codes "Error logging out: user was not logged in.\n")
        else if starts (codes "RLO UNR") buffer
        then (false, codes "User was not registered.\n")
        else (false, codes "Error logging out\n"))
    else (false, unread)

unfoldable pub unregister_answer : Bytes → Bool × Bytes
unregister_answer buffer =
    if verify_buffer buffer
    then (if starts (codes "RUR OK") buffer
        then (true, codes "User was successfully unregistered.\n")
        else if starts (codes "RUR NOK") buffer
        then (false, codes "Incorrect register attempt: the user was not logged in.\n")
        else if starts (codes "RUR UNR") buffer
        then (false, codes "User was not registered.\n")
        else (false, codes "Error unregistering.\n"))
    else (false, unread)

abbrev opened_text : Option (ℤ × Bytes) → Option Bytes
opened_text none = none
opened_text (some (aid, _)) =
    some (codes "Auction succesfully open! Your identifier is " ++ (print_int aid ++ codes ".\n"))

-- `sscanf(buffer, "ROA OK %d", &aid)`: the space skips any white space. If it fails, `aid` is unset.
unfoldable pub open_answer : Bytes → Option Bytes
unfolding print_int
open_answer buffer =
    if verify_buffer buffer
    then (if starts (codes "ROA NOK") buffer
        then some (codes "Auction could not be started.\n")
        else if starts (codes "ROA NLG") buffer
        then some (codes "User was not logged in.\n")
        else if starts (codes "ROA OK") buffer
        then opened_text (scan_d (drop 6 buffer))
        else some (codes "Error opening auction.\n"))
    else some unread

unfoldable pub close_answer : Bytes → Bytes
close_answer buffer =
    if verify_buffer buffer
    then (if starts (codes "RCL OK") buffer
        then codes "Auction successfully closed.\n"
        else if starts (codes "RCL NLG") buffer
        then codes "User was not logged in.\n"
        else if starts (codes "RCL OA") buffer
        then codes "No such auction.\n"
        else if starts (codes "RCL EOW") buffer
        then codes "Auction is not owned by this user.\n"
        else if starts (codes "RCL END") buffer
        then codes "Your auction has already ended.\n"
        else codes "Server responded with ERR while trying to close the auction.\n")
    else unread

unfoldable pub bid_answer : ℤ → Bytes → Bytes
unfolding print_padded
bid_answer aid buffer =
    if verify_buffer buffer
    then (if starts (codes "RBD ACC") buffer
        then codes "Your bid has been accepted!\n"
        else if starts (codes "RBD NOK") buffer
        then codes "Bid error: auction " ++ (print_padded 3 aid ++ codes " is not active.\n")
        else if starts (codes "RBD NLG") buffer
        then codes "Bid error: user is not logged in.\n"
        else if starts (codes "RBD REF") buffer
        then codes "Bid refused: a larger bid has already been placed previously.\n"
        else if starts (codes "RBD ILG") buffer
        then codes "Bid refused: you cannot bid on an auction hosted by yourself!\n"
        else codes "Server responded with an error when trying to bid.\n")
    else unread

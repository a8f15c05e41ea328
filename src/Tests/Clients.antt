-- ===== src/Tests/Clients.antt =====
-- The theorems on the client, at concrete commands, requests and replies.
use auction_simulator.Prelude.{ℕ, ◌≡◌, refl, true, false, some, List, [], ◌∷◌, ◌++◌, arith, length}
use auction_simulator.Text.{codes, newline, all, same}
use auction_simulator.Text.Decimal.{print3}
use auction_simulator.Text.Int.{pos}
use auction_simulator.Input.Verify.{verify_name}
use auction_simulator.World.Dir.{find}
use auction_simulator.World.Ends.{Ends}
use auction_simulator.Socket.{store_loop}
use auction_simulator.Socket.Transfers.{store_loop_rounds}
use auction_simulator.Tcp.Bid.{bid_as}
use auction_simulator.Tcp.Close.{close_as}
use auction_simulator.Tcp.Open
use auction_simulator.Tcp.Dispatch.{process_tcp_request}
use auction_simulator.Udp.Session.Accounts.{absent, known}
use auction_simulator.Client.Requests.{bid_request, close_request, open_request}
use auction_simulator.Client.Requests.Laws.{coming}
use auction_simulator.Client.Requests.Received.{bid_request-bid_as, close_request-close_as}
use auction_simulator.Client.Session.{
  Session, no_session, scan_login, valid_login, logout_command, unregister_command,
}
use auction_simulator.Client.Session.Agrees.{
  Agrees, LoggedOut, logout_command-LoggedOut, unregister_command-LoggedOut,
}
use auction_simulator.Client.Connection.{Link, upload}
use auction_simulator.Client.Open.{open_refusal, extension, valid_filename}
use auction_simulator.Client.Open.Checks.{Offer}
use auction_simulator.Client.Open.Laws.{open_args}
use auction_simulator.Client.Open.Sends.{open_request-open_auction, upload-open_request}
use auction_simulator.Client.Main.{Client, run_client, run_command}
use auction_simulator.Client.Main.Safe.{Safe}
use auction_simulator.Client.Main.Rounds.{Left, run_client-Left}
use auction_simulator.Client.Main.Accounts.{
  typed_login, GoesOn, run_command-GoesOn, command_of, input_of,
}
use auction_simulator.Tests.Fixtures.{counting, fresh, host, secret, house, house-IsSound}

abbrev typed : Session
typed = record { uid = host; password = secret; logged_in = false }

abbrev member : Session
member = record { uid = host; password = secret; logged_in = true }

abbrev link : Link
link = record { sent = 2 ∷ 0 ∷ []; got = 1 ∷ 5 ∷ [] }

abbrev guest : Client
guest = record { session = no_session; assets = [] }

typed_words : scan_login (codes " 102664 passw0rd") no_session ≡ some typed
unfolding scan_login
typed_words = refl

member_valid : valid_login host secret ≡ true
unfolding valid_login
member_valid = refl

member-Agrees : Agrees member house
unfolding find same
member-Agrees = record {
  sound = house-IsSound.users;
  valid = λ on. member_valid;
  held = λ on. refl;
}

logout_command-LoggedOut_example :
    Ends (logout_command member house) (LoggedOut member (known secret false))
logout_command-LoggedOut_example = logout_command-LoggedOut member house member-Agrees refl

unregister_command-LoggedOut_example :
    Ends (unregister_command member house) (LoggedOut member absent)
unregister_command-LoggedOut_example = unregister_command-LoggedOut member house member-Agrees refl

run_client-Left_example :
    Safe
      (run_client
        (link ∷ link ∷ link ∷ [])
        []
        (codes "login 102664 passw0rd\nlogout\nexit\n")
        guest
        fresh)
      Left
run_client-Left_example =
    run_client-Left (link ∷ link ∷ link ∷ []) [] (codes "login 102664 passw0rd\nlogout\nexit\n")
      guest fresh (λ on. cc on)

run_command-GoesOn_example :
    Ends
      (run_command link []
        (command_of (typed_login (codes " 102664 passw0rd")))
        (input_of (typed_login (codes " 102664 passw0rd")))
        guest
        fresh)
      GoesOn
run_command-GoesOn_example =
    run_command-GoesOn link [] (typed_login (codes " 102664 passw0rd")) guest fresh
      (record { sound = tt; valid = λ on. cc on; held = λ on. cc on }) (typed, typed_words)

bid_request-bid_as_example :
    process_tcp_request (coming (bid_request host secret (pos 1) (pos 150)) (2 ∷ 0 ∷ [])) house
    ≡ bid_as host secret 1 150 house
bid_request-bid_as_example =
    bid_request-bid_as host secret 1 150 (2 ∷ 0 ∷ []) house member_valid (omega arith) (omega arith)

close_request-close_as_example :
    process_tcp_request (coming (close_request host secret (pos 1)) (2 ∷ 0 ∷ [])) house
    ≡ close_as host secret (print3 1) house
close_request-close_as_example =
    close_request-close_as host secret 1 (2 ∷ 0 ∷ []) house member_valid (omega arith)

chair-Offer : Offer (codes "chair") (codes "chair.jpg") 100 50 4
unfolding verify_name open_refusal valid_filename extension all
chair-Offer = record { named = refl; few = omega arith; passed = refl }

open_request-open_auction_example :
    (later : List ℕ) × (process_tcp_request
        (coming
          (open_request host secret (codes "chair") (pos 100) (pos 50) (codes "chair.jpg") 4
            ++ codes "abcd\n")
          [])
        house
      ≡ Open.open_auction
          (open_args host secret (codes "chair") (codes "chair.jpg") 100 50 4)
          (coming (codes "abcd\n") later)
          house)
open_request-open_auction_example =
    open_request-open_auction host secret (codes "chair") (codes "chair.jpg") 100 50 4
      (codes "abcd\n") [] house member_valid chair-Offer

chair_there :
    find (codes "chair.jpg") ((codes "chair.jpg", codes "abcd") ∷ []) ≡ some (codes "abcd")
unfolding find same
chair_there = refl

upload-open_request_example :
    upload ((codes "chair.jpg", codes "abcd") ∷ []) (
      open_request host secret
        (codes "chair")
        (pos 100)
        (pos 50)
        (codes "chair.jpg")
        (length (codes "abcd")))
    ≡ some (codes "abcd" ++ newline ∷ [])
upload-open_request_example =
    upload-open_request host secret (codes "chair") (codes "chair.jpg") (codes "abcd") 100 50
      ((codes "chair.jpg", codes "abcd") ∷ []) member_valid chair-Offer chair_there

store_loop_rounds_example :
    store_loop 9 4 [] 0 (coming (codes "abcd\n") (1 ∷ []))
    ≡ store_loop 4 4 [] 0 (coming (codes "abcd\n") (1 ∷ []))
store_loop_rounds_example =
    store_loop_rounds 9 4 4 [] 0 (coming (codes "abcd\n") (1 ∷ [])) (omega arith) (omega arith)

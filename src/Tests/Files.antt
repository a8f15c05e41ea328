-- ===== src/Tests/Files.antt =====
-- The theorems on the bytes of requests and files, at concrete inputs.
use auction_simulator.Prelude.{
  ◌≡◌, ◌≢◌, ◌↔◌, refl, true, some, [], ◌∷◌, ◌++◌, arith, take, ◌==◌, if◌then◌else◌,
}
use auction_simulator.Text.{Bytes, codes, newline, blank}
use auction_simulator.Text.Int.{pos}
use auction_simulator.Input.Verify.{verify_uid, verify_password}
use auction_simulator.Socket.{Socket, store_file}
use auction_simulator.Socket.Transfers.{store_file_complete, store_file_short}
use auction_simulator.Socket.Accepted.{
  Takes, Admissible, read_field-space_iff, read_field-newline_iff,
}
use auction_simulator.Auctions.Files.{start_text, bid_text, scan_start, scan_bid}
use auction_simulator.Auctions.Files.Laws.{fields_of, scan_start-start_text, scan_bid-bid_text}
use auction_simulator.Udp.Session.{credentials}
use auction_simulator.Udp.Session.Credentials.{LoginLine, credentials_iff}
use auction_simulator.Tests.Fixtures.{
  counting, chair, chair-IsReadable, bidder, bidder-IsWord, host, secret, sent,
}

abbrev line : Bytes
line = codes "LIN 102664 passw0rd\n"

credentials_iff_example : (credentials line ≡ some (host, secret)) ↔ (
    (verify_uid host ≡ true)
    × (verify_password secret ≡ true)
    × ((rest : Bytes) × LoginLine line host secret rest))
credentials_iff_example = credentials_iff line host secret

-- The kernel hands over three bytes, and then one.
abbrev pieces : Socket
pieces = record { input = codes "abcd\nxyz"; limits = 2 ∷ 0 ∷ [] }

store_file_complete_example :
    ((store_file 4 pieces).file ≡ take 4 pieces.input)
    × ((store_file 4 pieces).returned ≡ (if newline == newline then 4 else 0))
store_file_complete_example = store_file_complete 4 pieces newline (codes "xyz") refl

store_file_short_example :
    ((store_file 20 pieces).file ≡ pieces.input) × ((store_file 20 pieces).returned ≡ 0)
store_file_short_example = store_file_short 20 pieces (omega arith)

read_field-space_iff_example :
    Takes blank 6 host (codes "passw0rd ") (sent (codes "102664 passw0rd ")) ↔ (
      ((sent (codes "102664 passw0rd ")).input ≡ host ++ blank ∷ codes "passw0rd ")
      × Admissible 6 host
      × (host ≢ []))
read_field-space_iff_example =
    read_field-space_iff 6 host (codes "passw0rd ") (sent (codes "102664 passw0rd "))

read_field-newline_iff_example :
    Takes newline 3 (codes "001") [] (sent (codes "001\n"))
    ↔ (((sent (codes "001\n")).input ≡ codes "001" ++ newline ∷ []) × Admissible 3 (codes "001"))
read_field-newline_iff_example = read_field-newline_iff 3 (codes "001") [] (sent (codes "001\n"))

scan_start-start_text_example :
    scan_start (start_text chair) ≡ some (fields_of chair chair-IsReadable)
scan_start-start_text_example = scan_start-start_text chair chair-IsReadable

scan_bid-bid_text_example :
    scan_bid (bid_text bidder 120 1005 (pos 5))
    ≡ some (record {
      uid = bidder;
      bid_value = 120;
      datetime1 = counting.date 1005;
      datetime2 = counting.hour 1005;
      bidtime = pos 5;
    })
scan_bid-bid_text_example = scan_bid-bid_text bidder 120 1005 (pos 5) bidder-IsWord

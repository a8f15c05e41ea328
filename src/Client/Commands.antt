-- ===== src/Client/Commands.antt =====
-- `closeAuction`, `bid` and `showRecord` of client/functions.c.
use auction_simulator.Prelude.{Bool, true, ltb, if◌then◌else◌}
use auction_simulator.Text.{Bytes, codes}
use auction_simulator.Text.Int.{ℤ, pos, negsuc}
use auction_simulator.World.Monad.{M, ◌>>=◌, pure}
use auction_simulator.World.Platform.{Platform}
use auction_simulator.Client.Asset.{Files}
use auction_simulator.Client.Words.{scan_aid}
use auction_simulator.Client.Network.{defined, connect_udp}
use auction_simulator.Client.Connection.{Link, connect_tcp}
use auction_simulator.Client.Requests.{close_request, bid_request, show_record_request}
use auction_simulator.Client.Answers.{close_answer, bid_answer}
use auction_simulator.Client.Record.{record_answer}

-- `aid < 0 || aid > 999`
abbrev out_of_range : ℤ → Bool
out_of_range (pos n) = ltb 999 n
out_of_range (negsuc n) = true

module _ ⦃p : Platform⦄ where
  unfoldable pub close_auction : Link → Files → Bytes → Bytes → Bytes → M Bytes
  unfolding scan_aid close_request close_answer
  close_auction link local_assets uid password input = do
    aid ← defined (scan_aid input)
    if out_of_range aid
        then pure (codes "Invalid close attempt: AID must be a 3-digit number between 0 and 999.\n")
        else (do
          buffer ← connect_tcp 1024 link local_assets (close_request uid password aid)
          pure (close_answer buffer))

  unfoldable pub bid : Link → Files → Bytes → Bytes → ℤ → ℤ → M Bytes
  unfolding bid_request bid_answer
  bid link local_assets uid password aid value = do
    buffer ← connect_tcp 30000 link local_assets (bid_request uid password aid value)
    pure (bid_answer aid buffer)

  unfoldable pub show_record : ℤ → M Bytes
  unfolding show_record_request record_answer
  show_record aid = do
    buffer ← connect_udp 2000 (show_record_request aid)
    defined (record_answer buffer)

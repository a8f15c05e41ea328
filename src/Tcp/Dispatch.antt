-- ===== src/Tcp/Dispatch.antt =====
-- `process_tcp_request` of server/server.c. The command is what `read_field` leaves in the buffer,
-- whether it succeeds or not, up to a NUL, where the string functions stop.
pub mod Laws
use auction_simulator.Prelude.{take, if◌then◌else◌}
use auction_simulator.Text.{Bytes, codes, same, c_string}
use auction_simulator.Socket.{Socket, Field, read_field}
use auction_simulator.World.Monad.{M, pure}
use auction_simulator.World.Platform.{Platform}
use auction_simulator.Tcp.Open.{handle_open}
use auction_simulator.Tcp.Bid.{handle_bid}
use auction_simulator.Tcp.Close.{handle_close}
use auction_simulator.Tcp.Asset.{handle_show_asset}

module _ ⦃p : Platform⦄ where
  unfoldable pub dispatch_tcp : Bytes → Socket → M Bytes
  unfolding same
  dispatch_tcp command s =
      if same (take 3 command) (codes "OPA")
      then handle_open s
      else if same command (codes "CLS")
      then handle_close s
      else if same command (codes "SAS")
      then handle_show_asset s
      else if same command (codes "BID")
      then handle_bid s
      else pure (codes "ERR\n")

  unfoldable pub process_tcp_request : Socket → M Bytes
  process_tcp_request s = let f = read_field 4 s in dispatch_tcp (c_string f.buffer) f.socket

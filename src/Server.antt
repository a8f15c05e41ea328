-- ===== src/Server.antt =====
-- The main loop of server/server.c, one request at a time: what the world may become.
pub mod Laws
pub mod Locks
pub mod Options
use auction_simulator.Prelude.{ℕ, ◌≤◌, ◌≡◌, some, List}
use auction_simulator.Text.{Bytes}
use auction_simulator.Socket.{Socket}
use auction_simulator.World.{World}
use auction_simulator.World.Platform.{Platform}
use auction_simulator.Udp.Dispatch.{process_udp_request}
use auction_simulator.Tcp.Dispatch.{process_tcp_request}

module _ ⦃p : Platform⦄ where
  -- A datagram, a connection, or time that passes: the clock and its later readings change.
  pub data Step : World → World → Type 0 where
    datagram :
        (buffer reply : Bytes) {w w' : World}
        → process_udp_request buffer w ≡ some (reply, w')
        → Step w w'
    connection :
        (s : Socket) (reply : Bytes) {w w' : World}
        → process_tcp_request s w ≡ some (reply, w')
        → Step w w'
    idle :
        (now : ℕ) (ticks : List ℕ) {w : World}
        → w.now ≤ now
        → Step w (record w { now = now; ticks = ticks })

  -- Any number of steps.
  pub data Run (w : World) : World → Type 0 where
    begun : Run w w
    next : {v v' : World} → Run w v → Step v v' → Run w v'

-- ===== src/Client/Network.antt =====
-- `connect_UDP` of client/aux_functions.c with the server at the other end: a datagram is delivered and
-- answered. A reply that does not fit the buffer, with the NUL behind it, is undefined behaviour.
use auction_simulator.Prelude.{ℕ, Option, none, some, take}
use auction_simulator.Text.{Bytes}
use auction_simulator.World.Monad.{M, ◌>>=◌, pure, crash, fitted}
use auction_simulator.World.Platform.{Platform}
use auction_simulator.Udp.Dispatch.{process_udp_request}

-- What a function of the client does with a buffer, where that is defined.
abbrev pub defined : {A : Type 0} → Option A → M A
defined none = crash
defined (some a) = pure a

module _ ⦃p : Platform⦄ where
  -- `recvfrom(fd, buffer, 8095, …)`, into a buffer of `size` bytes.
  unfoldable pub connect_udp : ℕ → Bytes → M Bytes
  connect_udp size request = do reply ← process_udp_request request; fitted size (take 8095 reply)

-- ===== src/Server/Laws.antt =====
-- What holds after every run of the server.

use auction_simulator.Prelude.{ℕ, ◌≡◌, refl, some, []}
use auction_simulator.Text.{Bytes}
use auction_simulator.World.{World, AuctionDir}
use auction_simulator.World.Dir.{find}
use auction_simulator.World.Platform.{Platform}
use auction_simulator.Auctions.Sound.{IsSound, Kept}
use auction_simulator.Auctions.Growth.{Kept-refl, Kept-trans, Grows-aside}
use auction_simulator.Udp.Dispatch.Laws.{process_udp_request_answered}
use auction_simulator.Tcp.Dispatch.Laws.{process_tcp_request_answered}
use auction_simulator.Server.{Step, datagram, connection, idle, Run, begun, next}

-- The empty server.
abbrev pub empty_world : ℕ → World
empty_world now = record { users = []; auctions = []; now = now; ticks = [] }

module _ ⦃p : Platform⦄ where
  Step-Kept : (w w' : World) → IsSound w → Step w w' → Kept w w'
  Step-Kept w w' s (datagram buffer reply e) = rw e at (process_udp_request_answered buffer w s)
  Step-Kept w w' s (connection c reply e) = process_tcp_request_answered c w s e
  Step-Kept w _ s (idle now ticks h) = record {
    sound = record { users = s.users; auctions = s.auctions };
    grows = Grows-aside w _ refl h;
  }

  -- Whatever requests the server answers, and however time passes between them, a sound world stays
  -- sound, no auction disappears, its START file and an END file that is there stay as they are, bids
  -- are only added, and none to an auction with an END file.
  pub Run-Kept : {w w' : World} → IsSound w → Run w w' → Kept w w'
  Run-Kept {w} s begun = Kept-refl w s
  Run-Kept s (next r step) = let k = Run-Kept s r in Kept-trans k.grows (Step-Kept _ _ k.sound step)

  -- After any run of the server that starts in a sound world (datagrams, connections that get a
  -- reply, and time that passes), an auction that had an END file at the start is still there,
  -- with the same START file, the same END file and the same bids.
  pub Run-over :
      {w w' : World} (name : Bytes) (d : AuctionDir) (text : Bytes)
      → IsSound w
      → Run w w'
      → find name w.auctions ≡ some d
      → d.end_file ≡ some text
      → (d' : AuctionDir) × (find name w'.auctions ≡ some d')
        × (d'.end_file ≡ some text)
        × (d'.start_file ≡ d.start_file)
        × (d'.bids ≡ d.bids)
  Run-over name d text s r found e =
      let (d', found', l) = (Run-Kept s r).grows.auction name d found in
      (d', found', l.same_end text e, l.same_start, l.frozen text e)

  -- Every world that a run of the server reaches from the empty one is sound: users with a login
  -- file have a password, START, END and bid files can be read back, and the bids of an auction
  -- rise from above its start value in the order in which they were made.
  pub Run-IsSound : (now : ℕ) {w : World} → Run (empty_world now) w → IsSound w
  Run-IsSound now r = (Run-Kept (record { users = tt; auctions = tt }) r).sound

-- ===== src/Tcp/Dispatch/Laws.antt =====
-- `process_tcp_request` keeps the world sound.
use auction_simulator.Prelude.{◌≡◌, ◌≢◌, refl, ◌∙◌, true, none, some, [], take}
use auction_simulator.Text.{Bytes, codes, same, same_iff, c_string}
use auction_simulator.Socket.{Socket, read_field}
use auction_simulator.World.{World}
use auction_simulator.World.Platform.{Platform}
use auction_simulator.World.Ends.{Ends, Ends-test, Ends-mono}
use auction_simulator.Auctions.Sound.{IsSound, Kept}
use auction_simulator.Auctions.Growth.{Kept-refl}
use auction_simulator.Tcp.Fields.{final}
use auction_simulator.Tcp.Open.Laws.{handle_open-Kept}
use auction_simulator.Tcp.Bid.Laws.{handle_bid-Kept}
use auction_simulator.Tcp.Close.Laws.{handle_close-Kept}
use auction_simulator.Tcp.Asset.{handle_show_asset}
use auction_simulator.Tcp.Asset.Laws.{handle_show_asset-same, handle_show_asset-nil}
use auction_simulator.Tcp.Dispatch.{dispatch_tcp, process_tcp_request}

module _ ⦃p : Platform⦄ where
  dispatch_tcp-Kept :
      (command : Bytes) (s : Socket) (w : World)
      → IsSound w
      → (same command (codes "SAS") ≡ true → final 3 s ≢ some [])
      → Ends (dispatch_tcp command s w) (λ reply w'. Kept w w')
  unfolding dispatch_tcp
  dispatch_tcp-Kept command s w sound named =
      Ends-test (same (take 3 command) (codes "OPA")) _ _ w _ (λ opa. handle_open-Kept s w sound)
        (λ _.
          Ends-test (same command (codes "CLS")) _ _ w _ (λ cls. handle_close-Kept s w sound)
            (λ _.
              Ends-test (same command (codes "SAS")) _ _ w _
                (λ sas.
                  Ends-mono (handle_show_asset s w) (λ reply w'. w' ≡ w) (λ reply w'. Kept w w')
                    (handle_show_asset-same s w (named sas))
                    (λ reply w' e. rw e (Kept-refl w sound)))
                (λ _.
                  Ends-test (same command (codes "BID")) _ _ w _ (λ bid. handle_bid-Kept s w sound)
                    (λ unknown. Kept-refl w sound))))

  pub process_tcp_request-Kept :
      (s : Socket) (w : World)
      → IsSound w
      → (same (c_string (read_field 4 s).buffer) (codes "SAS") ≡ true
          → final 3 (read_field 4 s).socket ≢ some [])
      → Ends (process_tcp_request s w) (λ reply w'. Kept w w')
  unfolding process_tcp_request
  process_tcp_request-Kept s w sound named =
      dispatch_tcp-Kept (c_string (read_field 4 s).buffer) (read_field 4 s).socket w sound named

  dispatch-sas : (s : Socket) (w : World) → dispatch_tcp (codes "SAS") s w ≡ handle_show_asset s w
  unfolding dispatch_tcp same
  dispatch-sas s w = refl

  -- "SAS" with an empty identifier gets no reply.
  process_tcp_request-nil :
      (s : Socket) (w : World)
      → same (c_string (read_field 4 s).buffer) (codes "SAS") ≡ true
      → final 3 (read_field 4 s).socket ≡ some []
      → process_tcp_request s w ≡ none
  unfolding process_tcp_request
  process_tcp_request-nil s w sas e =
      rw ((same_iff _ _).0 sas)
        (dispatch-sas (read_field 4 s).socket w ∙ handle_show_asset-nil (read_field 4 s).socket w e)

  -- A request that gets a reply keeps the world sound.
  pub process_tcp_request_answered :
      (s : Socket) (w : World) {reply : Bytes} {w' : World}
      → IsSound w
      → process_tcp_request s w ≡ some (reply, w')
      → Kept w w'
  process_tcp_request_answered s w {reply} {w'} sound e =
      rw e at
        (process_tcp_request-Kept s w sound (λ sas nil. cc (process_tcp_request-nil s w sas nil)))

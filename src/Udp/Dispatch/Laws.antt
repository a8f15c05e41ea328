-- ===== src/Udp/Dispatch/Laws.antt =====
-- `process_udp_request` keeps the world sound.
use auction_simulator.Prelude.{
  ◌≡◌, refl, Bool, true, false, Option, some, not, if◌then◌else◌, ◌++◌, ◌∷◌, [],
}
use auction_simulator.Text.{Bytes, codes, newline, same}
use auction_simulator.Text.Decimal.{atoi}
use auction_simulator.Input.Udp.{read_command_udp, read_aid_udp, CommandEnd, separated, ended}
use auction_simulator.World.{World}
use auction_simulator.World.Monad.{M}
use auction_simulator.World.Platform.{Platform}
use auction_simulator.World.Ends.{Ends}
use auction_simulator.World.Mights.{
  Might, Might-Ends, Might-test, Might-bind, Might-read, fitted-Might,
}
use auction_simulator.Auctions.Asset.{exists_auction}
use auction_simulator.Auctions.Record.{get_auc_info}
use auction_simulator.Auctions.Record.Laws.{get_auc_info-Kept}
use auction_simulator.Auctions.Sound.{IsSound, Kept}
use auction_simulator.Auctions.Growth.{Kept-refl}
use auction_simulator.Udp.Session.{handle_login, handle_logout, handle_unregister}
use auction_simulator.Udp.Session.Keeps.{
  handle_login-Kept, handle_logout-Kept, handle_unregister-Kept,
}
use auction_simulator.Udp.Queries.{handle_myauctions, handle_mybids, handle_list}
use auction_simulator.Udp.Queries.Laws.{
  handle_myauctions-Kept, handle_mybids-Kept, handle_list-Kept,
}
use auction_simulator.Udp.Dispatch.{
  show_record, handle_show_record, dispatch_udp, command_udp, process_udp_request,
}

-- A property of the outcome of either branch.
branch :
    {A : Type 0} (P : Option (A × World) → Type 0) (b : Bool) (m n : M A) (w : World)
    → (b ≡ true → P (m w))
    → (b ≡ false → P (n w))
    → P ((if b then m else n) w)
branch P true m n w hm hn = hm refl
branch P false m n w hm hn = hn refl

module _ ⦃p : Platform⦄ where
  -- What every handler of a datagram leaves, every command does.
  record Handled (P : Option (Bytes × World) → Type 0) (command buffer : Bytes) (w : World)
      : Type 0 where
    logs_in : P (handle_login buffer w)
    logs_out : P (handle_logout buffer w)
    unregisters : P (handle_unregister buffer w)
    auctions : P (handle_myauctions buffer w)
    bids : P (handle_mybids buffer w)
    lists : P (handle_list buffer w)
    shows : same command (codes "SRC") ≡ true → P (handle_show_record buffer w)
    refuses : P (some (codes "ERR\n", w))

  dispatch_udp-Handled :
      (P : Option (Bytes × World) → Type 0) (command buffer : Bytes) (w : World)
      → Handled P command buffer w
      → P (dispatch_udp command buffer w)
  unfolding dispatch_udp
  dispatch_udp-Handled P command buffer w h =
      branch P (same command (codes "LIN")) _ _ w (λ _. h.logs_in)
        (λ _.
          branch P (same command (codes "LOU")) _ _ w (λ _. h.logs_out)
            (λ _.
              branch P (same command (codes "UNR")) _ _ w (λ _. h.unregisters)
                (λ _.
                  branch P (same command (codes "LMA")) _ _ w (λ _. h.auctions)
                    (λ _.
                      branch P (same command (codes "LMB")) _ _ w (λ _. h.bids)
                        (λ _.
                          branch P (same command (codes "LST")) _ _ w (λ _. h.lists)
                            (λ _.
                              branch P (same command (codes "SRC")) _ _ w h.shows
                                (λ _. h.refuses)))))))

  command_udp-Handled :
      (P : Option (Bytes × World) → Type 0) (command : Bytes) (how : CommandEnd) (buffer : Bytes)
      (w : World)
      → Handled P command buffer w
      → P (command_udp command how buffer w)
  unfolding command_udp
  command_udp-Handled P command separated buffer w h = dispatch_udp-Handled P command buffer w h
  command_udp-Handled P command ended buffer w h =
      branch P (not (same command (codes "LST"))) _ _ w (λ _. h.refuses)
        (λ _. dispatch_udp-Handled P command buffer w h)

  show_record-Kept :
      (auc_id : Bytes) (w : World)
      → IsSound w
      → Might (show_record auc_id w) (λ reply w'. Kept w w')
  unfolding show_record
  show_record-Kept auc_id w s =
      Might-test (exists_auction auc_id w) _ _ w _
        (λ there.
          Might-bind (get_auc_info (atoi auc_id) (codes "RRC OK") w) _ (λ status w'. Kept w w')
            (λ reply w'. Kept w w') (get_auc_info-Kept (atoi auc_id) (codes "RRC OK") w s)
            (λ status w' k. fitted-Might 9999 (status ++ newline ∷ []) w' _ k))
        (λ gone. Kept-refl w s)

  handle_show_record-Kept :
      (buffer : Bytes) (w : World)
      → IsSound w
      → Might (handle_show_record buffer w) (λ reply w'. Kept w w')
  unfolding handle_show_record
  handle_show_record-Kept buffer w s =
      Might-read (read_aid_udp buffer) _ _ w _ (Kept-refl w s)
        (λ auc_id _. show_record-Kept auc_id w s)

  -- Every reply leaves a sound world sound.
  pub process_udp_request_answered :
      (buffer : Bytes) (w : World)
      → IsSound w
      → Might (process_udp_request buffer w) (λ reply w'. Kept w w')
  unfolding process_udp_request
  process_udp_request_answered buffer w s =
      Might-read (read_command_udp buffer) _ _ w _ (Kept-refl w s) (λ (command, how) _.
        command_udp-Handled (λ r. Might r (λ reply w'. Kept w w')) command how buffer w
          (record {
            logs_in = Might-Ends (handle_login buffer w) _ (handle_login-Kept buffer w s);
            logs_out = Might-Ends (handle_logout buffer w) _ (handle_logout-Kept buffer w s);
            unregisters =
                Might-Ends (handle_unregister buffer w) _ (handle_unregister-Kept buffer w s);
            auctions = handle_myauctions-Kept buffer w s;
            bids = handle_mybids-Kept buffer w s;
            lists = handle_list-Kept buffer w s;
            shows = λ _. handle_show_record-Kept buffer w s;
            refuses = Kept-refl w s;
          }))

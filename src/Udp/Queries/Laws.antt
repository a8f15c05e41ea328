-- ===== src/Udp/Queries/Laws.antt =====
-- The lists keep the world sound, and those of at most 999 auctions fit their replies.
use auction_simulator.Prelude.{
  ◌≤◌, ◌<◌, Option, none, some, arith, length, length-append, List, [], ◌∷◌, ◌==◌, drop,
  if◌then◌else◌,
}
use auction_simulator.Text.{Bytes, codes, newline}
use auction_simulator.Input.Udp.{read_uid_udp_final}
use auction_simulator.World.{World}
use auction_simulator.World.Dir.{names}
use auction_simulator.World.Monad.{M, pure}
use auction_simulator.World.Platform.{Platform}
use auction_simulator.World.Ends.{Ends, Ends-test, Ends-bind, Ends-read, fitted-Ends}
use auction_simulator.World.Mights.{
  Might, Might-Ends, Might-test, Might-bind, Might-read, fitted-Might,
}
use auction_simulator.Auctions.Listing.Length.{
  Few, Room, user_auc_status-Room, user_bids_status-Room, append_auctions-Room,
}
use auction_simulator.Users.{is_user_login}
use auction_simulator.Auctions.Listing.{
  append_states, fetch_auctions, status_of, user_auc_status, user_bids_status, append_auctions,
  exists_auctions, scandir,
}
use auction_simulator.Auctions.Listing.Laws.{Listed, append_states-Listed}
use auction_simulator.Auctions.Sound.{IsSound, Kept}
use auction_simulator.Auctions.Growth.{Kept-refl}
use auction_simulator.Udp.Queries.{handle_myauctions, handle_mybids, handle_list, list_all, or_nok}

or_nok-fits :
    (nok : Bytes) (status : Option Bytes)
    → length nok ≤ 9
    → Room status
    → length (or_nok nok status) < 9999
or_nok-fits nok none short room = omega (arith, length-append nok (newline ∷ []))
or_nok-fits nok (some status) short room = omega (arith, length-append status (newline ∷ []))

module _ ⦃p : Platform⦄ where
  status_of-Kept :
      (entries : List Bytes) (status : Bytes) (w : World)
      → IsSound w
      → Ends (status_of entries status w) (λ reply w'. Kept w w')
  unfolding status_of
  status_of-Kept [] status w s = Kept-refl w s
  status_of-Kept (name ∷ rest) status w s =
      let ids = fetch_auctions (name ∷ rest) in
      Ends-bind (append_states ids status w) _ (Listed ids status w) (λ reply w'. Kept w w')
        (append_states-Listed ids status w s) (λ reply w' l. l.kept)

  user_auc_status-Kept :
      (uid status : Bytes) (w : World)
      → IsSound w
      → Ends (user_auc_status uid status w) (λ reply w'. Kept w w')
  unfolding user_auc_status
  user_auc_status-Kept uid status w s = status_of-Kept _ status w s

  user_bids_status-Kept :
      (uid status : Bytes) (w : World)
      → IsSound w
      → Ends (user_bids_status uid status w) (λ reply w'. Kept w w')
  unfolding user_bids_status
  user_bids_status-Kept uid status w s = status_of-Kept _ status w s

  pub handle_myauctions-Kept :
      (buffer : Bytes) (w : World)
      → IsSound w
      → Might (handle_myauctions buffer w) (λ reply w'. Kept w w')
  unfolding handle_myauctions
  handle_myauctions-Kept buffer w s =
      Might-read (read_uid_udp_final buffer) _ _ w _ (Kept-refl w s) (λ uid _.
        Might-test (is_user_login uid w) _ _ w _
          (λ on.
            Might-bind (user_auc_status uid (codes "RMA OK") w) _ (λ status w'. Kept w w')
              (λ reply w'. Kept w w')
              (Might-Ends (user_auc_status uid (codes "RMA OK") w) (λ status w'. Kept w w')
                (user_auc_status-Kept uid (codes "RMA OK") w s))
              (λ status w' k. fitted-Might 9999 (or_nok (codes "RMA NOK") status) w' _ k))
          (λ off. Kept-refl w s))

  pub handle_myauctions-Answered :
      (buffer : Bytes) (w : World)
      → IsSound w
      → Few w
      → Ends (handle_myauctions buffer w) (λ reply w'. Kept w w')
  unfolding handle_myauctions
  handle_myauctions-Answered buffer w s few =
      Ends-read (read_uid_udp_final buffer) _ _ w _ (Kept-refl w s) (λ uid _.
        Ends-test (is_user_login uid w) _ _ w _
          (λ on.
            Ends-bind (user_auc_status uid (codes "RMA OK") w) _
              (λ status w'. Kept w w' × Room status) (λ reply w'. Kept w w')
              (user_auc_status-Room uid (codes "RMA OK") w s few (omega arith))
              (λ status w' (k, room).
                fitted-Ends 9999 (or_nok (codes "RMA NOK") status) w' _
                  (or_nok-fits (codes "RMA NOK") status (omega arith) room) k))
          (λ off. Kept-refl w s))

  pub handle_mybids-Kept :
      (buffer : Bytes) (w : World)
      → IsSound w
      → Might (handle_mybids buffer w) (λ reply w'. Kept w w')
  unfolding handle_mybids
  handle_mybids-Kept buffer w s =
      Might-read (read_uid_udp_final buffer) _ _ w _ (Kept-refl w s) (λ uid _.
        Might-test (is_user_login uid w) _ _ w _
          (λ on.
            Might-bind (user_bids_status uid (codes "RMB OK") w) _ (λ status w'. Kept w w')
              (λ reply w'. Kept w w')
              (Might-Ends (user_bids_status uid (codes "RMB OK") w) (λ status w'. Kept w w')
                (user_bids_status-Kept uid (codes "RMB OK") w s))
              (λ status w' k. fitted-Might 9999 (or_nok (codes "RMB NOK") status) w' _ k))
          (λ off. Kept-refl w s))

  pub handle_mybids-Answered :
      (buffer : Bytes) (w : World)
      → IsSound w
      → Few w
      → Ends (handle_mybids buffer w) (λ reply w'. Kept w w')
  unfolding handle_mybids
  handle_mybids-Answered buffer w s few =
      Ends-read (read_uid_udp_final buffer) _ _ w _ (Kept-refl w s) (λ uid _.
        Ends-test (is_user_login uid w) _ _ w _
          (λ on.
            Ends-bind (user_bids_status uid (codes "RMB OK") w) _
              (λ status w'. Kept w w' × Room status) (λ reply w'. Kept w w')
              (user_bids_status-Room uid (codes "RMB OK") w s few (omega arith))
              (λ status w' (k, room).
                fitted-Ends 9999 (or_nok (codes "RMB NOK") status) w' _
                  (or_nok-fits (codes "RMB NOK") status (omega arith) room) k))
          (λ off. Kept-refl w s))

  append_auctions-Kept :
      (status : Bytes) (w : World)
      → IsSound w
      → Ends (append_auctions status w) (λ reply w'. Kept w w')
  unfolding append_auctions
  append_auctions-Kept status w s =
      let ids = scandir (names w.auctions) in
      Ends-bind (append_states ids status w) _ (Listed ids status w) (λ reply w'. Kept w w')
        (append_states-Listed ids status w s) (λ reply w' l. l.kept)

  list_all-Kept : (w : World) → IsSound w → Might (list_all w) (λ reply w'. Kept w w')
  unfolding list_all
  list_all-Kept w s =
      Might-test (exists_auctions w) _ _ w _
        (λ there.
          Might-bind (append_auctions (codes "RLS OK") w) _ (λ reply w'. Kept w w')
            (λ reply w'. Kept w w')
            (Might-Ends (append_auctions (codes "RLS OK") w) (λ reply w'. Kept w w')
              (append_auctions-Kept (codes "RLS OK") w s))
            (λ reply w' k. fitted-Might 9999 reply w' _ k))
        (λ gone. Kept-refl w s)

  pub handle_list-Kept :
      (buffer : Bytes) (w : World)
      → IsSound w
      → Might (handle_list buffer w) (λ reply w'. Kept w w')
  unfolding handle_list
  handle_list-Kept buffer w s = by_end (drop 3 buffer)
    where
      by_end :
          (rest : Bytes)
          → Might
              ((elim rest as (λ _. M Bytes) [
                | [] ↦ pure (codes "RLS ERR\n")
                | c ∷ _ ↦ if c == newline then list_all else pure (codes "RLS ERR\n")
              ])
                w)
              (λ reply w'. Kept w w')
      by_end [] = Kept-refl w s
      by_end (c ∷ rest) =
          Might-test (c == newline) _ _ w _ (λ _. list_all-Kept w s) (λ _. Kept-refl w s)

  list_all-Answered : (w : World) → IsSound w → Few w → Ends (list_all w) (λ reply w'. Kept w w')
  unfolding list_all
  list_all-Answered w s few =
      Ends-test (exists_auctions w) _ _ w _
        (λ there.
          Ends-bind (append_auctions (codes "RLS OK") w) _
            (λ reply w'. Kept w w' × (length reply ≤ 9001)) (λ reply w'. Kept w w')
            (append_auctions-Room (codes "RLS OK") w s few (omega arith))
            (λ reply w' (k, room). fitted-Ends 9999 reply w' _ (omega arith) k))
        (λ gone. Kept-refl w s)

  pub handle_list-Answered :
      (buffer : Bytes) (w : World)
      → IsSound w
      → Few w
      → Ends (handle_list buffer w) (λ reply w'. Kept w w')
  unfolding handle_list
  handle_list-Answered buffer w s few = by_end (drop 3 buffer)
    where
      by_end :
          (rest : Bytes)
          → Ends
              ((elim rest as (λ _. M Bytes) [
                | [] ↦ pure (codes "RLS ERR\n")
                | c ∷ _ ↦ if c == newline then list_all else pure (codes "RLS ERR\n")
              ])
                w)
              (λ reply w'. Kept w w')
      by_end [] = Kept-refl w s
      by_end (c ∷ rest) =
          Ends-test (c == newline) _ _ w _ (λ _. list_all-Answered w s few) (λ _. Kept-refl w s)

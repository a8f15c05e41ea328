-- ===== src/Client/Main/Rounds.antt =====
-- What every round of the client's loop keeps.
use auction_simulator.Prelude.{
  ◌≡◌, refl, Bool, true, false, ◌||◌, inl, inr, Bool-cases, List, [], ◌∷◌, ◌++◌, if◌then◌else◌,
}
use auction_simulator.Text.{Bytes, codes, same}
use auction_simulator.World.{World}
use auction_simulator.World.Monad.{M, ◌>>=◌, pure}
use auction_simulator.World.Platform.{Platform}
use auction_simulator.Client.Network.{defined}
use auction_simulator.Client.Session.{Session, login_command, logout_command, unregister_command}
use auction_simulator.Client.Asset.{Files}
use auction_simulator.Client.Connection.{Link}
use auction_simulator.Client.Open.{open_auction}
use auction_simulator.Client.Commands.{close_auction}
use auction_simulator.Client.Lists.{list_all_auctions, my_auctions, my_bids}
use auction_simulator.Client.Main.{
  shown, moved, if_logged_in, first_is, Client, Round, again, stopped, run_command, run_client,
  bid_command, record_command, next_command,
}
use auction_simulator.Client.Main.Safe.{
  IsValid, Keeps, Safe, Safe-bind, Safe-next, Safe-test, asset_command-Keeps, login_command-IsValid,
  logout_command-IsValid, unregister_command-IsValid,
}

module _ ⦃p : Platform⦄ where
  -- An action of a round that keeps the session valid.
  record Keeping (c : Client) (m : M Round) (w : World) : Type 0 where
    safe : Safe (m w) (Keeps c)

  module _ (c : Client) (w : World) where
    test :
        (b : Bool) {m n : M Round}
        → Keeping c m w
        → (b ≡ false → Keeping c n w)
        → Keeping c (if b then m else n) w
    test true hm hn = hm
    test false hm hn = hn refl

    shows : (m : M Bytes) → IsValid c.session → Keeping c (shown c m) w
    shows m h = record { safe = Safe-next (m w) _ (Keeps c) (λ out w'. h) }

    moves :
        (m : M (Session × Bytes)) → Safe (m w) (λ got w'. IsValid got.0) → Keeping c (moved c m) w
    moves m k = record { safe = Safe-bind (m w) _ _ (Keeps c) k (λ got w' v. v) }

    leaves_loop :
        IsValid c.session
        → Keeping c
            (if c.session.logged_in
              then pure (again c (codes "You are still logged in. Please logout first.\n"))
              else pure stopped)
            w
    leaves_loop h = elim (Bool-cases c.session.logged_in) [
      | inl on ↦ record { safe = Safe-test c.session.logged_in _ _ w _ (λ _. h) (λ off. off) }
      | inr off ↦ record { safe = Safe-test c.session.logged_in _ _ w _ (λ _. h) (λ off. off) }
    ]

  -- Whatever is typed, a round keeps the session valid, and only a session that is logged out is left.
  run_command-Keeping :
      (link : Link) (local_assets : Files) (command input : Bytes) (c : Client) (w : World)
      → IsValid c.session
      → Keeping c (run_command link local_assets command input c) w
  unfolding run_command
  run_command-Keeping link local_assets command input c w h =
      let s = c.session in
      test c w (same command (codes "login"))
        (moves c w (login_command input s) (login_command-IsValid input s w h))
        (λ _.
          test c w (same command (codes "logout"))
            (moves c w (logout_command s) (logout_command-IsValid s w h))
            (λ _.
              test c w (same command (codes "unregister"))
                (moves c w (unregister_command s) (unregister_command-IsValid s w h))
                (λ _. test c w (same command (codes "exit")) (leaves_loop c w h) (λ _.
                  test c w (same command (codes "open"))
                    (shows c w
                      (if_logged_in c (open_auction link local_assets s.uid s.password input)) h)
                    (λ _.
                      test c w (same command (codes "list") || first_is b'l' command)
                        (shows c w list_all_auctions h)
                        (λ _.
                          test c w (same command (codes "close"))
                            (shows c w
                              (if_logged_in c
                                (close_auction link local_assets s.uid s.password input))
                              h)
                            (λ _.
                              test c w
                                (same command (codes "myauctions") || same command (codes "ma"))
                                (shows c w (if_logged_in c (my_auctions s.uid)) h)
                                (λ _.
                                  test c w
                                    (same command (codes "mybids") || same command (codes "mb"))
                                    (shows c w (if_logged_in c (my_bids s.uid)) h)
                                    (λ _.
                                      test c w
                                        (same command (codes "show_asset")
                                          || same command (codes "sa"))
                                        (record { safe = asset_command-Keeps link input c w h })
                                        (λ _.
                                          test c w
                                            (same command (codes "bid") || first_is b'b' command)
                                            (shows c w
                                              (if_logged_in c
                                                (bid_command link local_assets input s))
                                              h)
                                            (λ _.
                                              test c w
                                                (same command (codes "show_record")
                                                  || same command (codes "sr"))
                                                (shows c w (record_command input) h)
                                                (λ _. record { safe = h }))))))))))))

  -- The session that the rounds leave; after `exit` it is logged out.
  abbrev pub Left : Bool × Client × Bytes → World → Type 0
  Left (done, last, printed) w =
      IsValid last.session × (done ≡ true → last.session.logged_in ≡ false)

  goes_on :
      (links : List Link) (local_assets : Files) (stdin : Bytes) (c : Client) (round : Round)
      (w : World)
      → IsValid c.session
      → Keeps c round w
      → ((c' : Client) → IsValid c'.session → Safe (run_client links local_assets stdin c' w) Left)
      → Safe
          ((elim round as (λ _. M (Bool × Client × Bytes)) [
            | stopped ↦ pure (true, c, [])
            | again c' out ↦ run_client links local_assets stdin c' >>= λ (done, last, printed).
                pure (done, last, out ++ printed)
          ])
            w)
          Left
  goes_on links local_assets stdin c (again c' out) w h k rest =
      Safe-bind (run_client links local_assets stdin c' w) _ Left Left (rest c' k) (λ got w' l. l)
  goes_on links local_assets stdin c stopped w h off rest = (h, λ _. off)

  -- Whatever is typed, after any number of rounds of the client's loop that starts with a valid
  -- session, if no round is undefined, a user who is logged in has a uid and a password that pass
  -- the client's tests, and if the loop has been left nobody is logged in.
  pub run_client-Left :
      (links : List Link) (local_assets : Files) (stdin : Bytes) (c : Client) (w : World)
      → IsValid c.session
      → Safe (run_client links local_assets stdin c w) Left
  unfolding run_client
  run_client-Left [] local_assets stdin c w h = (h, λ done. cc done)
  run_client-Left (link ∷ links) local_assets stdin c w h =
      Safe-next (defined (next_command stdin) w) _ Left (λ typed v.
        Safe-bind (run_command link local_assets typed.0 typed.1 c v) _ (Keeps c) Left
          (run_command-Keeping link local_assets typed.0 typed.1 c v h).safe
          (λ round w' k.
            goes_on links local_assets typed.2 c round w' h k
              (λ c' h'. run_client-Left links local_assets typed.2 c' w' h')))

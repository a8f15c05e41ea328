-- ===== src/Tcp/Open/Laws.antt =====
-- `handle_open` keeps the world sound.
use auction_simulator.Text.{same}
use auction_simulator.Text.Decimal.{atoi}
use auction_simulator.Socket.{Socket}
use auction_simulator.Input.Verify.{verify_open_args}
use auction_simulator.Input.Verify.Laws.{Readable, verify_open_args-Readable}
use auction_simulator.World.{World}
use auction_simulator.World.Monad.{reading}
use auction_simulator.World.Platform.{Platform}
use auction_simulator.World.Ends.{Ends, Ends-test, Ends-bind, Ends-next, Ends-read}
use auction_simulator.Users.{is_user_login, verify_user_exists}
use auction_simulator.Users.Laws.{registered_known, verify_password_correct_lem}
use auction_simulator.Auctions.Create.{create_auction}
use auction_simulator.Auctions.Create.Laws.{opening, Opened, create_auction-Opened}
use auction_simulator.Auctions.Sound.{IsSound, Kept}
use auction_simulator.Auctions.Growth.{Kept-refl}
use auction_simulator.Tcp.Open.{OpenArgs, open_auction, handle_open, read_open}

module _ ⦃p : Platform⦄ where
  open_auction-Kept :
      (a : OpenArgs) (s : Socket) (w : World)
      → IsSound w
      → Readable a.uid a.name a.asset_fname
      → Ends (open_auction a s w) (λ reply w'. Kept w w')
  unfolding open_auction
  open_auction-Kept a s w sound r =
      Ends-test (verify_user_exists a.uid w) _ _ w _
        (λ registered.
          let (u, t, found, passed, h) = registered_known a.uid w sound.users registered in
          Ends-next _ _ _ (verify_password_correct_lem a.uid a.password t w found passed h) (
            Ends-test (same t a.password) _ _ w _
              (λ right.
                Ends-test (is_user_login a.uid w) _ _ w _
                  (λ on.
                    Ends-bind
                      (create_auction s a.uid a.name a.asset_fname (atoi a.start_value)
                        (atoi a.timeactive) (atoi a.fsize) w)
                      _
                      (Opened
                        (opening a.uid a.name a.asset_fname (atoi a.start_value) (atoi a.timeactive)
                          (reading w))
                        w)
                      (λ reply w'. Kept w w')
                      (create_auction-Opened s a.uid a.name a.asset_fname (atoi a.start_value)
                        (atoi a.timeactive) (atoi a.fsize) w u found sound
                        (record {
                          uid = r.uid_word;
                          name = r.name_word;
                          asset_fname = r.fname_word;
                        }))
                      (λ auction_id w' o. record { sound = o.sound; grows = o.grows }))
                  (λ off. Kept-refl w sound))
              (λ wrong. Kept-refl w sound)))
        (λ unknown. Kept-refl w sound)

  -- On every request `handle_open` replies and the world stays sound: no auction disappears, and
  -- those that were there are kept as they were or only grow.
  pub handle_open-Kept :
      (s : Socket) (w : World) → IsSound w → Ends (handle_open s w) (λ reply w'. Kept w w')
  unfolding handle_open
  handle_open-Kept s w sound = Ends-read (read_open s) _ _ w _ (Kept-refl w sound) (λ (a, s') _.
      Ends-test
        (verify_open_args a.uid a.password a.name a.start_value a.timeactive a.asset_fname a.fsize)
        _ _ w _
        (λ ok. open_auction-Kept a s' w sound (
          verify_open_args-Readable a.uid a.password a.name a.start_value a.timeactive a.asset_fname
            a.fsize ok))
        (λ refused. Kept-refl w sound))

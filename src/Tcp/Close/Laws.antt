-- ===== src/Tcp/Close/Laws.antt =====
-- `handle_close` keeps the world sound.
use mathlib.Core.Path.{subst}
use auction_simulator.Prelude.{ℕ, ◌≡◌, refl, true, some}
use auction_simulator.Text.{Bytes, same}
use auction_simulator.Text.Decimal.{atoi}
use auction_simulator.Socket.{Socket}
use auction_simulator.Input.Verify.{verify_close_args}
use auction_simulator.World.{World, UserDir}
use auction_simulator.World.Dir.{find}
use auction_simulator.World.Platform.{Platform}
use auction_simulator.World.Ends.{Ends, Ends-test, Ends-bind, Ends-next, Ends-mono, Ends-read}
use auction_simulator.Users.{is_user_login}
use auction_simulator.Users.Laws.{is_user_login_known, verify_password_correct_lem}
use auction_simulator.Auctions.Bids.{hosts}
use auction_simulator.Auctions.Asset.{exists_auction}
use auction_simulator.Auctions.Lifecycle.{ongoing_auction, close_auction}
use auction_simulator.Auctions.Lifecycle.Laws.{Checked, ongoing_auction-Checked}
use auction_simulator.Auctions.Lifecycle.Closing.{Closed, close_auction-Closed}
use auction_simulator.Auctions.Sound.{IsSound, Kept}
use auction_simulator.Auctions.Growth.{Kept-refl, Kept-trans}
use auction_simulator.Tcp.Bid.Laws.{hosted_by_self_known}
use auction_simulator.Tcp.Close.{close_own, close_as, handle_close, read_close}

module _ ⦃p : Platform⦄ where
  close_live :
      (auction_id : ℕ) (w v : World)
      → Checked auction_id w true v
      → Ends (close_auction auction_id v) (λ closed w'. Kept w w')
  close_live auction_id w v c =
      let (d, there, open_still) = c.live refl in
      Ends-mono (close_auction auction_id v) (Closed auction_id v) (λ closed w'. Kept w w')
        (close_auction-Closed auction_id v d c.sound there open_still)
        (λ closed w' k. Kept-trans c.grows (record { sound = k.sound; grows = k.grows }))

  close_own-Kept :
      (uid : Bytes) (auction_id : ℕ) (w : World) (u : UserDir)
      → IsSound w
      → find uid w.users ≡ some u
      → Ends (close_own uid auction_id w) (λ reply w'. Kept w w')
  unfolding close_own
  close_own-Kept uid auction_id w u s found =
      Ends-next _ _ _ (hosted_by_self_known auction_id uid w found) (
        Ends-test (hosts auction_id u.hosted) _ _ w _
          (λ own.
            Ends-bind (ongoing_auction auction_id w) _ (Checked auction_id w)
              (λ reply w'. Kept w w') (ongoing_auction-Checked auction_id w s)
              (λ ongoing v c.
                Ends-test ongoing _ _ v _
                  (λ e.
                    Ends-bind (close_auction auction_id v) _ (λ closed w'. Kept w w')
                      (λ reply w'. Kept w w')
                      (close_live auction_id w v (subst (λ b. Checked auction_id w b v) e c))
                      (λ closed w' k. k))
                  (λ e. record { sound = c.sound; grows = c.grows })))
          (λ other. Kept-refl w s))

  close_as-Kept :
      (uid password aid : Bytes) (w : World)
      → IsSound w
      → Ends (close_as uid password aid w) (λ reply w'. Kept w w')
  unfolding close_as
  close_as-Kept uid password aid w s =
      Ends-test (is_user_login uid w) _ _ w _
        (λ on.
          let (u, t, found, passed, h) = is_user_login_known uid w s.users on in
          Ends-next _ _ _ (verify_password_correct_lem uid password t w found passed h) (
            Ends-test (same t password) _ _ w _
              (λ right.
                Ends-test (exists_auction aid w) _ _ w _
                  (λ there. close_own-Kept uid (atoi aid) w u s found) (λ gone. Kept-refl w s))
              (λ wrong. Kept-refl w s)))
        (λ off. Kept-refl w s)

  -- On every request `handle_close` replies and the world stays sound: no auction disappears, its
  -- START file and its bids are kept, and an END file is never written again.
  pub handle_close-Kept :
      (s : Socket) (w : World) → IsSound w → Ends (handle_close s w) (λ reply w'. Kept w w')
  unfolding handle_close
  handle_close-Kept s w sound = Ends-read (read_close s) _ _ w _ (Kept-refl w sound) (λ a _.
      Ends-test (verify_close_args a.uid a.password a.aid) _ _ w _
        (λ ok. close_as-Kept a.uid a.password a.aid w sound) (λ refused. Kept-refl w sound))

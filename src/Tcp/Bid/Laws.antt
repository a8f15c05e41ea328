-- ===== src/Tcp/Bid/Laws.antt =====
-- `handle_bid` keeps the world sound.
use mathlib.Core.Path.{subst}
use auction_simulator.Prelude.{ℕ, ◌≡◌, refl, true, some, arith}
use auction_simulator.Text.{Bytes, same}
use auction_simulator.Text.Decimal.{atoi}
use auction_simulator.Text.Scan.{IsWord}
use auction_simulator.Socket.{Socket}
use auction_simulator.Input.Verify.{verify_bid_args}
use auction_simulator.Input.Verify.Laws.{verify_bid_args-uid}
use auction_simulator.World.{World, UserDir}
use auction_simulator.World.Dir.{find}
use auction_simulator.World.Platform.{Platform}
use auction_simulator.World.Ends.{Ends, Ends-test, Ends-bind, Ends-next, Ends-mono, Ends-read}
use auction_simulator.Users.{is_user_login}
use auction_simulator.Users.Laws.{is_user_login_known, verify_password_correct_lem}
use auction_simulator.Auctions.Bids.{hosted_by_self, hosts, bid_accepted}
use auction_simulator.Auctions.Bids.Accepting.{bid_accepted-Kept}
use auction_simulator.Auctions.Lifecycle.{ongoing_auction}
use auction_simulator.Auctions.Lifecycle.Laws.{Checked, ongoing_auction-Checked}
use auction_simulator.Auctions.Sound.{IsSound, Kept}
use auction_simulator.Auctions.Growth.{Kept-refl, Kept-trans}
use auction_simulator.Tcp.Bid.{place_bid, bid_as, handle_bid, read_bid}

pub hosted_by_self_known :
    (auction_id : ℕ) (uid : Bytes) (w : World) {u : UserDir}
    → find uid w.users ≡ some u
    → hosted_by_self auction_id uid w ≡ some (hosts auction_id u.hosted, w)
unfolding hosted_by_self
hosted_by_self_known auction_id uid w found = ground arith

module _ ⦃p : Platform⦄ where
  place_bid-Kept :
      (uid : Bytes) (auction_id value : ℕ) (w v : World) (u : UserDir)
      → find uid w.users ≡ some u
      → IsWord uid
      → Checked auction_id v true w
      → Ends (place_bid uid auction_id value w) (λ reply w'. Kept w w')
  unfolding place_bid
  place_bid-Kept uid auction_id value w v u found word c =
      let (d, there, open_still) = c.live refl in
      Ends-next _ _ _ (hosted_by_self_known auction_id uid w found) (
        Ends-test (hosts auction_id u.hosted) _ _ w _ (λ own. Kept-refl w c.sound)
          (λ other.
            Ends-bind (bid_accepted auction_id value uid w) _ (λ accepted w'. Kept w w')
              (λ reply w'. Kept w w')
              (bid_accepted-Kept auction_id value uid w d u there found c.sound word open_still)
              (λ accepted w' k. k)))

  bid_as-Kept :
      (uid password : Bytes) (auction_id value : ℕ) (w : World)
      → IsSound w
      → IsWord uid
      → Ends (bid_as uid password auction_id value w) (λ reply w'. Kept w w')
  unfolding bid_as
  bid_as-Kept uid password auction_id value w s word =
      Ends-test (is_user_login uid w) _ _ w _
        (λ on.
          let (u, t, found, passed, h) = is_user_login_known uid w s.users on in
          Ends-next _ _ _ (verify_password_correct_lem uid password t w found passed h) (
            Ends-test (same t password) _ _ w _
              (λ right.
                Ends-bind (ongoing_auction auction_id w) _ (Checked auction_id w)
                  (λ reply w'. Kept w w') (ongoing_auction-Checked auction_id w s)
                  (λ ongoing v c.
                    Ends-test ongoing _ _ v _
                      (λ e.
                        Ends-mono (place_bid uid auction_id value v) (λ reply w'. Kept v w')
                          (λ reply w'. Kept w w')
                          (place_bid-Kept uid auction_id value v w u (rw c.users found) word
                            (subst (λ b. Checked auction_id w b v) e c))
                          (λ reply w' k. Kept-trans c.grows k))
                      (λ e. record { sound = c.sound; grows = c.grows })))
              (λ wrong. Kept-refl w s)))
        (λ off. Kept-refl w s)

  -- On every request `handle_bid` replies and the world stays sound: no auction disappears, its
  -- START and END files are kept, and bids are only added, none of them to a closed auction.
  pub handle_bid-Kept :
      (s : Socket) (w : World) → IsSound w → Ends (handle_bid s w) (λ reply w'. Kept w w')
  unfolding handle_bid
  handle_bid-Kept s w sound = Ends-read (read_bid s) _ _ w _ (Kept-refl w sound) (λ a _.
      Ends-test (verify_bid_args a.uid a.password a.aid a.value) _ _ w _
        (λ ok.
          bid_as-Kept a.uid a.password (atoi a.aid) (atoi a.value) w sound
            (verify_bid_args-uid a.uid a.password a.aid a.value ok))
        (λ refused. Kept-refl w sound))

-- ===== src/Auctions/Lifecycle/Closing.antt =====
-- `close_auction` on an auction that is still open.
use mathlib.Core.Path.{subst}
use mathlib.Core.Option.{some-injective}
use auction_simulator.Prelude.{ℕ, ◌≡◌, refl, sym, ◌∙◌, Bool, true, none, some, arith}
use auction_simulator.Text.Decimal.{print3}
use auction_simulator.Text.Int.{sub_ℕ}
use auction_simulator.World.{World, AuctionDir}
use auction_simulator.World.Dir.{find, find-put_self, Values-find}
use auction_simulator.World.Monad.{reading, ticked}
use auction_simulator.World.Platform.{Platform}
use auction_simulator.World.Ends.{Ends, Ends-eq}
use auction_simulator.Auctions.Files.{end_text, set_auction}
use auction_simulator.Auctions.Files.Laws.{scan_opened-start_text}
use auction_simulator.Auctions.Lifecycle.{close_auction}
use auction_simulator.Auctions.Lifecycle.Laws.{Grows-ticked, Later-end, set-IsSound, ticked-IsSound}
use auction_simulator.Auctions.Sound.{IsAuction, IsSound, Later, Grows}
use auction_simulator.Auctions.Growth.{Grows-trans, Grows-set}

module _ ⦃p : Platform⦄ where
  -- The END file names the second of the request, and the seconds since the opening.
  abbrev pub closed_at : (d : AuctionDir) → IsAuction d → ℕ → AuctionDir
  closed_at d a now = record d { end_file = some (end_text now (sub_ℕ now a.start.start_fulltime)) }

  closed_at-IsAuction : (d : AuctionDir) (a : IsAuction d) (now : ℕ) → IsAuction (closed_at d a now)
  closed_at-IsAuction d a now = record {
    start = a.start;
    bid_list = a.bid_list;
    readable = a.readable;
    opened = a.opened;
    listed = a.listed;
    rising = a.rising;
    words = a.words;
    ending = (now, sub_ℕ now a.start.start_fulltime, refl);
  }

  close_auction_open :
      (auction_id : ℕ) (w : World) (d : AuctionDir) (a : IsAuction d)
      → find (print3 auction_id) w.auctions ≡ some d
      → close_auction auction_id w
        ≡ some (true, set_auction (print3 auction_id) (closed_at d a (reading w)) (ticked w))
  unfolding close_auction
  close_auction_open auction_id w d a found =
      ground (arith, a.opened, scan_opened-start_text a.start a.readable)

  -- What `close_auction` leaves: the auction has an END file.
  pub record Closed (auction_id : ℕ) (w : World) (closed : Bool) (w' : World) : Type 0 where
    pub done : closed ≡ true
    pub sound : IsSound w'
    pub grows : Grows w w'
    pub users : w'.users ≡ w.users
    pub ended :
        (d : AuctionDir) × (a : IsAuction d) × (find (print3 auction_id) w'.auctions
          ≡ some (closed_at d a (reading w)))

  -- In a sound world close_auction on an auction with no END file succeeds and leaves it with an
  -- END file of the second of the request; the world stays sound, no user is changed and auctions
  -- only grow.
  pub close_auction-Closed :
      (auction_id : ℕ) (w : World) (d : AuctionDir)
      → IsSound w
      → find (print3 auction_id) w.auctions ≡ some d
      → d.end_file ≡ none
      → Ends (close_auction auction_id w) (Closed auction_id w)
  close_auction-Closed auction_id w d s found open_still =
      let name = print3 auction_id in
      let a = Values-find IsAuction name w.auctions s.auctions found in
      let d' = closed_at d a (reading w) in
      let late =
        Later-end d (end_text (reading w) (sub_ℕ (reading w) a.start.start_fulltime)) open_still in
      Ends-eq _ _ (close_auction_open auction_id w d a found) (record {
        done = refl;
        sound =
            set-IsSound name d' (ticked w) (ticked-IsSound w s)
              (closed_at-IsAuction d a (reading w));
        grows = Grows-trans (Grows-ticked w) (
            Grows-set (ticked w) name d'
              (λ e same. subst (λ x. Later x d') (some-injective _ _ (sym found ∙ same)) late));
        users = refl;
        ended = (d, a, find-put_self name d' w.auctions);
      })

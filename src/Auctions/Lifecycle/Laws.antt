-- ===== src/Auctions/Lifecycle/Laws.antt =====
-- `ongoing_auction` and `close_auction` in a sound world: when an auction is over, and what is written.
use mathlib.Core.Path.{subst}
use mathlib.Core.Option.{some-injective}
use auction_simulator.Prelude.{
  ℕ, ◌+◌, ◌≤◌, ◌≡◌, ◌≢◌, refl, sym, ◌∙◌, append-nil, Bool, true, false, inl, inr, Option-cases,
  none, some, List, [], ◌∷◌, arith, leb, if◌then◌else◌,
}
use auction_simulator.Text.{Bytes}
use auction_simulator.Text.Decimal.{print3}
use auction_simulator.Text.Int.{pos}
use auction_simulator.World.{World, AuctionDir}
use auction_simulator.World.Dir.{find, find-put_self, Values-find, Values-put}
use auction_simulator.World.Monad.{reading, ticked, sum_head}
use auction_simulator.World.Platform.{Platform}
use auction_simulator.World.Ends.{Ends, Ends-if}
use auction_simulator.Auctions.Files.{end_text, set_auction}
use auction_simulator.Auctions.Files.Laws.{scan_times-start_text}
use auction_simulator.Auctions.Lifecycle.{ongoing_in, ongoing_auction}
use auction_simulator.Auctions.Sound.{IsAuction, IsSound, Later, Grows}
use auction_simulator.Auctions.Growth.{Grows-refl, Grows-trans, Grows-aside, Grows-set}

now-le-reading : (now : ℕ) (ticks : List ℕ) → now ≤ sum_head now ticks
now-le-reading now [] = omega arith
now-le-reading now (t ∷ ts) = omega arith

pub Grows-ticked : (w : World) → Grows w (ticked w)
Grows-ticked w = Grows-aside w (ticked w) refl (now-le-reading w.now w.ticks)

module _ ⦃p : Platform⦄ where
  -- The second at which an auction ends by itself.
  abbrev pub deadline : {d : AuctionDir} → IsAuction d → ℕ
  deadline a = a.start.start_fulltime + a.start.timeactive

  -- The directory with the END file that `ongoing_auction` writes.
  abbrev pub expired : (d : AuctionDir) → IsAuction d → AuctionDir
  expired d a = record d { end_file = some (end_text (deadline a) (pos a.start.timeactive)) }

  -- ongoing_auction on an auction with no END file as the server writes it: if the clock has
  -- reached the opening time plus timeactive, the result is 0 and the END file with that deadline
  -- is written; otherwise the result is 1 and nothing is written.
  pub ongoing_in_open :
      (name : Bytes) (d : AuctionDir) (a : IsAuction d) (w : World)
      → d.end_file ≡ none
      → ongoing_in name (some d) w ≡ (
          if leb (deadline a) (reading w)
          then some (false, set_auction name (expired d a) (ticked w))
          else some (true, ticked w))
  unfolding ongoing_in
  ongoing_in_open name d a w h = ground (arith, a.opened, scan_times-start_text a.start a.readable)

  pub ongoing_in_over :
      (name : Bytes) (d : AuctionDir) (w : World) {text : Bytes}
      → d.end_file ≡ some text
      → ongoing_in name (some d) w ≡ some (false, w)
  unfolding ongoing_in
  ongoing_in_over name d w h = ground arith

  expired-IsAuction : (d : AuctionDir) (a : IsAuction d) → IsAuction (expired d a)
  expired-IsAuction d a = record {
    start = a.start;
    bid_list = a.bid_list;
    readable = a.readable;
    opened = a.opened;
    listed = a.listed;
    rising = a.rising;
    words = a.words;
    ending = (deadline a, pos a.start.timeactive, refl);
  }

  -- To write an END file where there was none.
  pub Later-end :
      (d : AuctionDir) (text : Bytes)
      → d.end_file ≡ none
      → Later d (record d { end_file = some text })
  Later-end d text h = record {
    same_start = refl;
    same_end = λ old e. cc;
    added = ([], sym (append-nil d.bids));
    frozen = λ old e. refl;
  }

  pub set-IsSound :
      (name : Bytes) (d : AuctionDir) (w : World)
      → IsSound w
      → IsAuction d
      → IsSound (set_auction name d w)
  set-IsSound name d w s a = record {
    users = s.users;
    auctions = Values-put IsAuction name d w.auctions a s.auctions;
  }

  pub ticked-IsSound : (w : World) → IsSound w → IsSound (ticked w)
  ticked-IsSound w s = record { users = s.users; auctions = s.auctions }

  -- What `ongoing_auction` leaves: no user is changed, and its result tells whether the auction is
  -- there with no END file.
  pub record Checked (auction_id : ℕ) (w : World) (ongoing : Bool) (w' : World) : Type 0 where
    pub sound : IsSound w'
    pub grows : Grows w w'
    pub users : w'.users ≡ w.users
    pub live :
        ongoing ≡ true
        → (d : AuctionDir) × (find (print3 auction_id) w'.auctions ≡ some d) × (d.end_file ≡ none)
    pub over :
        ongoing ≡ false
        → (d : AuctionDir) → find (print3 auction_id) w'.auctions ≡ some d
        → d.end_file ≢ none

  Checked-open :
      (auction_id : ℕ) (w : World) (d : AuctionDir)
      → IsSound w
      → find (print3 auction_id) w.auctions ≡ some d
      → d.end_file ≡ none
      → Ends (ongoing_in (print3 auction_id) (some d) w) (Checked auction_id w)
  Checked-open auction_id w d s found open_still =
      let name = print3 auction_id in
      let a = Values-find IsAuction name w.auctions s.auctions found in
      let late = Later-end d (end_text (deadline a) (pos a.start.timeactive)) open_still in
      rw (ongoing_in_open name d a w open_still) (
        Ends-if (leb (deadline a) (reading w)) _ _ _
          (λ h. record {
            sound =
                set-IsSound name (expired d a) (ticked w) (ticked-IsSound w s)
                  (expired-IsAuction d a);
            grows = Grows-trans (Grows-ticked w) (
                Grows-set (ticked w) name (expired d a) (λ e same.
                  subst (λ x. Later x (expired d a)) (some-injective _ _ (sym found ∙ same)) late));
            users = refl;
            live = λ no_way. cc;
            over = λ _ e same. ground (arith, find-put_self name (expired d a) w.auctions);
          })
          (λ h. record {
            sound = ticked-IsSound w s;
            grows = Grows-ticked w;
            users = refl;
            live = λ _. (d, found, open_still);
            over = λ no_way. cc;
          }))

  unchanged :
      (auction_id : ℕ) (w : World)
      → IsSound w
      → ((d : AuctionDir) → find (print3 auction_id) w.auctions ≡ some d → d.end_file ≢ none)
      → Checked auction_id w false w
  unchanged auction_id w s over = record {
    sound = s;
    grows = Grows-refl w;
    users = refl;
    live = λ no_way. cc;
    over = λ _. over;
  }

  -- In a sound world ongoing_auction ends without a crash for every identifier; the world stays
  -- sound, no user is changed, auctions only grow, and its result is 1 only if the auction is
  -- there with no END file and 0 only if it is not there or has one.
  pub ongoing_auction-Checked :
      (auction_id : ℕ) (w : World)
      → IsSound w
      → Ends (ongoing_auction auction_id w) (Checked auction_id w)
  unfolding ongoing_auction
  ongoing_auction-Checked auction_id w s =
      elim (Option-cases (find (print3 auction_id) w.auctions)) [
        | inl gone ↦ rw gone (unchanged auction_id w s (λ d found. cc))
        | inr (d, found) ↦ rw found (elim (Option-cases d.end_file) [
          | inl open_still ↦ Checked-open auction_id w d s found open_still
          | inr (text, ended) ↦
              rw (ongoing_in_over (print3 auction_id) d w ended)
                (unchanged auction_id w s (λ e same. ground arith))
        ])
      ]

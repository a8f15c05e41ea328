-- ===== src/Auctions/Bids/Accepting.antt =====
-- `bid_accepted` in a sound world.
use mathlib.Core.Path.{subst}
use mathlib.Core.Option.{some-injective}
use mathlib.Core.List.{map-append}
use auction_simulator.Prelude.{
  ℕ, ◌<◌, ◌≡◌, refl, sym, ◌∙◌, ap, true, false, none, some, [], ◌∷◌, ◌++◌, arith, ltb, ltb→lt,
  All-append, if◌then◌else◌,
}
use auction_simulator.Text.{Bytes}
use auction_simulator.Text.Decimal.{print3}
use auction_simulator.Text.Int.{sub_ℕ}
use auction_simulator.Text.Scan.{IsWord}
use auction_simulator.World.{World, AuctionDir, UserDir}
use auction_simulator.World.Dir.{find, put, put-append, names, touch, Values-find, Values-put}
use auction_simulator.World.Monad.{reading, ticked}
use auction_simulator.World.Platform.{Platform}
use auction_simulator.World.Ends.{Ends, Ends-if}
use auction_simulator.Users.{set_user}
use auction_simulator.Users.Laws.{IsUser}
use auction_simulator.Auctions.Files.{bid_text, set_auction}
use auction_simulator.Auctions.Files.Laws.{scan_floor-start_text}
use auction_simulator.Auctions.Bids.{max_of, create_bid_files, note_bid, bid_accepted, dot_txt}
use auction_simulator.Auctions.Bids.Highest.{max_of-Rising, find-higher, Rising-append}
use auction_simulator.Auctions.Lifecycle.Laws.{Grows-ticked}
use auction_simulator.Auctions.Sound.{
  IsAuction, IsSound, Kept, Later, Grows, Bid, bid_name, bid_file, top_bid,
}
use auction_simulator.Auctions.Growth.{Grows-refl, Grows-trans, Grows-set, Grows-aside}

module _ ⦃p : Platform⦄ where
  -- The bid that a user places at this second.
  abbrev pub new_bid : Bytes → ℕ → ℕ → ℕ → Bid
  new_bid uid value now start_fulltime = record {
    uid = uid;
    value = value;
    placed = now;
    seconds = sub_ℕ now start_fulltime;
  }

  -- The auction with one more bid file.
  abbrev pub with_bid : (d : AuctionDir) → Bid → AuctionDir
  with_bid d b = record d {
    bids = put (bid_name b.value) (bid_text b.uid b.value b.placed b.seconds) d.bids;
  }

  abbrev pub with_bidded : UserDir → ℕ → UserDir
  with_bidded u auction_id = record u { bidded = touch (print3 auction_id ++ dot_txt) u.bidded }

  module _ (auction_id value : ℕ) (uid : Bytes) (w : World) (d : AuctionDir) (a : IsAuction d)
      (u : UserDir) (there : find (print3 auction_id) w.auctions ≡ some d)
      (known : find uid w.users ≡ some u) where
    abbrev pub bid : Bid
    bid = new_bid uid value (reading w) a.start.start_fulltime

    abbrev pub bid_world : World
    bid_world =
        set_user uid (with_bidded u auction_id)
          (set_auction (print3 auction_id) (with_bid d bid) (ticked w))

    create_bid_files_known :
        create_bid_files auction_id value uid a.start.start_fulltime w ≡ some (true, bid_world)
    unfolding create_bid_files note_bid
    create_bid_files_known = ground arith

    abbrev pub top : ℕ
    top = top_bid a.start.start_value a.bid_list

    highest :
        (if ltb a.start.start_value (max_of 0 (names d.bids))
          then max_of 0 (names d.bids)
          else a.start.start_value)
        ≡ top
    highest = rw a.listed (max_of-Rising a.start.start_value 0 a.bid_list a.rising (omega arith))

    -- For an auction as the server writes it and a bidder with a directory, bid_accepted accepts
    -- a bid exactly when its value exceeds the last bid, or the start value if there is none;
    -- then the bid file and the file in the bidder's directory are written, and otherwise nothing
    -- is changed.
    pub bid_accepted_known :
        bid_accepted auction_id value uid w
        ≡ (if ltb top value then some (true, bid_world) else some (false, w))
    unfolding bid_accepted
    bid_accepted_known =
        ground (
          arith,
          a.opened,
          scan_floor-start_text a.start a.readable,
          highest,
          create_bid_files_known,
        )

    module _ (higher : top < value) (word : IsWord uid) where
      placed :
          put (bid_name value) (bid_text uid value (reading w) bid.seconds) d.bids
          ≡ d.bids ++ bid_file bid ∷ []
      placed =
          put-append (bid_name value) _ d.bids
            (rw a.listed (find-higher a.start.start_value value a.bid_list a.rising higher))

      with_bid-IsAuction : IsAuction (with_bid d bid)
      with_bid-IsAuction = record {
        start = a.start;
        bid_list = a.bid_list ++ bid ∷ [];
        readable = a.readable;
        opened = a.opened;
        listed =
            placed
            ∙ ap (λ bs. bs ++ bid_file bid ∷ []) a.listed
            ∙ sym (map-append bid_file a.bid_list (bid ∷ []));
        rising = Rising-append a.start.start_value a.bid_list bid a.rising higher;
        words = All-append (λ b. IsWord b.uid) a.bid_list (bid ∷ []) a.words (word, tt);
        ending = a.ending;
      }

      bid_world-IsSound : IsSound w → IsSound bid_world
      bid_world-IsSound s =
          let old = Values-find IsUser uid w.users s.users known in
          record {
            users =
                Values-put IsUser uid (with_bidded u auction_id) w.users
                  (record { registered = old.registered; word = old.word }) s.users;
            auctions =
                Values-put IsAuction (print3 auction_id) (with_bid d bid) w.auctions
                  with_bid-IsAuction s.auctions;
          }

      Later-with_bid : d.end_file ≡ none → Later d (with_bid d bid)
      Later-with_bid open_still = record {
        same_start = refl;
        same_end = λ text e. e;
        added = (bid_file bid ∷ [], placed);
        frozen = λ text e. cc;
      }

      Grows-bid_world : d.end_file ≡ none → Grows w bid_world
      Grows-bid_world open_still = Grows-trans (Grows-ticked w) (
          Grows-trans
            (Grows-set (ticked w) (print3 auction_id) (with_bid d bid) (λ e same.
              subst (λ x. Later x (with_bid d bid)) (some-injective _ _ (sym there ∙ same))
                (Later-with_bid open_still)))
            (Grows-aside _ bid_world refl (omega arith)))

  pub bid_accepted-Kept :
      (auction_id value : ℕ) (uid : Bytes) (w : World) (d : AuctionDir) (u : UserDir)
      → find (print3 auction_id) w.auctions ≡ some d
      → find uid w.users ≡ some u
      → IsSound w
      → IsWord uid
      → d.end_file ≡ none
      → Ends (bid_accepted auction_id value uid w) (λ accepted w'. Kept w w')
  bid_accepted-Kept auction_id value uid w d u there known s word open_still =
      let a = Values-find IsAuction (print3 auction_id) w.auctions s.auctions there in
      rw (bid_accepted_known auction_id value uid w d a u there known) (
        Ends-if (ltb (top auction_id value uid w d a u there known) value) _ _ _
          (λ h.
            let higher = ltb→lt _ _ h in
            record {
              sound = bid_world-IsSound auction_id value uid w d a u there known higher word s;
              grows =
                  Grows-bid_world auction_id value uid w d a u there known higher word open_still;
            })
          (λ h. record { sound = s; grows = Grows-refl w }))

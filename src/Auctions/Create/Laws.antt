-- ===== src/Auctions/Create/Laws.antt =====
-- `create_auction` for a registered host: the identifier is new, and what the directory holds.

use auction_simulator.Prelude.{
  ℕ, ◌≤◌, ◌≡◌, ◌⊎◌, refl, Bool, true, false, inl, inr, Bool-cases, Option-cases, none, some, List,
  [], ◌∷◌, ◌++◌, arith, ltb, if◌then◌else◌, ◌==◌, append-nil,
}
use auction_simulator.Text.{Bytes, same, same_iff}
use auction_simulator.Text.Decimal.{print3, atoi, atoi-print3}
use auction_simulator.Socket.{Socket}
use auction_simulator.World.{World, UserDir, AuctionDir}
use auction_simulator.World.Dir.{find, names, touch, find-put_self, Values-find, Values-put}
use auction_simulator.World.Monad.{reading, ticked}
use auction_simulator.World.Platform.{Platform}
use auction_simulator.World.Ends.{Ends, Ends-eq}
use auction_simulator.Users.{set_user}
use auction_simulator.Users.Laws.{IsUser}
use auction_simulator.Auctions.Files.{Start, start_text, set_auction}
use auction_simulator.Auctions.Files.Laws.{IsReadable}
use auction_simulator.Auctions.Bids.{max_of, dot_txt}
use auction_simulator.Auctions.Bids.Highest.{le-max_of}
use auction_simulator.Auctions.Create.{
  get_next_auction_id, store_asset, create_dir, create_for, create_auction,
}
use auction_simulator.Auctions.Lifecycle.Laws.{Grows-ticked, set-IsSound, ticked-IsSound}
use auction_simulator.Auctions.Sound.{IsAuction, IsSound, Grows}
use auction_simulator.Auctions.Growth.{Grows-trans, Grows-aside, Grows-set}

max_of-names :
    {V : Type 0} (k : Bytes) (top : ℕ) (d : List (Bytes × V)) {v : V}
    → find k d ≡ some v
    → atoi k ≤ max_of top (names d)
unfolding find max_of
max_of-names k top [] e = cc
max_of-names k top ((j, x) ∷ d) e = elim (Bool-cases (same j k)) [
  | inl here ↦
      ground (
        arith,
        (same_iff j k).0 here,
        le-max_of (if ltb top (atoi j) then atoi j else top) (names d),
      )
  | inr other ↦ max_of-names k (if ltb top (atoi j) then atoi j else top) d (rw other at e)
]

atoi-printed : (n : ℕ) → atoi (print3 n) ≡ n
atoi-printed n = rw append-nil at (atoi-print3 n [] tt)

-- No auction has the identifier that `get_next_auction_id` gives.
pub get_next_auction_id_new : (w : World) → find (print3 (get_next_auction_id w)) w.auctions ≡ none
unfolding get_next_auction_id
get_next_auction_id_new w = elim (Option-cases (find (print3 (get_next_auction_id w)) w.auctions)) [
  | inl e ↦ e
  | inr (d, e) ↦ absurd (
      omega (
        arith,
        max_of-names (print3 (get_next_auction_id w)) 0 w.auctions e,
        atoi-printed (get_next_auction_id w),
      ))
]

-- The directory that a new auction starts with.
abbrev pub opening : Bytes → Bytes → Bytes → ℕ → ℕ → ℕ → Start
opening uid name asset_fname start_value timeactive now = record {
  uid = uid;
  name = name;
  asset_fname = asset_fname;
  start_value = start_value;
  timeactive = timeactive;
  start_fulltime = now;
}

module _ ⦃p : Platform⦄ where
  -- What `create_auction` leaves, whether the asset could be stored or not.
  pub record Opened (start : Start) (w : World) (auction_id : ℕ) (w' : World) : Type 0 where
    pub result : (auction_id ≡ 0) ⊎ (auction_id ≡ get_next_auction_id w)
    pub sound : IsSound w'
    pub grows : Grows w w'
    pub is_new : find (print3 (get_next_auction_id w)) w.auctions ≡ none
    pub dir : AuctionDir
    pub there : find (print3 (get_next_auction_id w)) w'.auctions ≡ some dir
    pub opened : dir.start_file ≡ some (start_text start)
    pub no_bids : dir.bids ≡ []
    pub open_still : dir.end_file ≡ none

  module _ (s : Socket) (uid name asset_fname : Bytes) (start_value timeactive fsize : ℕ)
      (w : World) (u : UserDir) (known : find uid w.users ≡ some u) where
    abbrev pub start : Start
    start = opening uid name asset_fname start_value timeactive (reading w)

    abbrev empty_dir : AuctionDir
    empty_dir = record {
      asset = [];
      bids = [];
      start_file = some (start_text start);
      end_file = none;
    }

    abbrev pub stored : ℕ × AuctionDir
    stored = store_asset asset_fname fsize s empty_dir

    abbrev hosting : UserDir
    hosting = record u { hosted = touch (print3 (get_next_auction_id w) ++ dot_txt) u.hosted }

    abbrev pub opened_world : World
    opened_world =
        set_auction (print3 (get_next_auction_id w)) stored.1 (ticked (set_user uid hosting w))

    pub create_auction_known :
        create_auction s uid name asset_fname start_value timeactive fsize w
        ≡ some (if stored.0 == 0 then 0 else get_next_auction_id w, opened_world)
    unfolding create_auction create_for create_dir
    create_auction_known = ground (arith, get_next_auction_id_new w)

    pub same_start : stored.1.start_file ≡ some (start_text start)
    unfolding store_asset
    same_start = ground arith

    same_bids : stored.1.bids ≡ []
    unfolding store_asset
    same_bids = ground arith

    pub same_end : stored.1.end_file ≡ none
    unfolding store_asset
    same_end = ground arith

    stored-IsAuction : IsReadable start → IsAuction stored.1
    stored-IsAuction h = record {
      start = start;
      bid_list = [];
      readable = h;
      opened = same_start;
      listed = same_bids;
      rising = tt;
      words = tt;
      ending = rw same_end tt;
    }

    hosting-IsSound : IsSound w → IsSound (set_user uid hosting w)
    hosting-IsSound sound =
        let old = Values-find IsUser uid w.users sound.users known in
        record {
          users =
              Values-put IsUser uid hosting w.users
                (record { registered = old.registered; word = old.word }) sound.users;
          auctions = sound.auctions;
        }

    Grows-opened_world : Grows w opened_world
    Grows-opened_world =
        let v = set_user uid hosting w in
        Grows-trans (Grows-aside w v refl (omega arith)) (
          Grows-trans (Grows-ticked v) (
            Grows-set (ticked v) (print3 (get_next_auction_id w)) stored.1
              (λ d found. absurd (ground (arith, get_next_auction_id_new w)))))

    result_known :
        (b : Bool)
        → ((if b then 0 else get_next_auction_id w) ≡ 0)
          ⊎ ((if b then 0 else get_next_auction_id w) ≡ get_next_auction_id w)
    result_known true = inl refl
    result_known false = inr refl

    -- In a sound world create_auction for a host with a directory, and texts that are words, ends
    -- without a crash: the identifier that it uses is of no auction, its result is that
    -- identifier or 0, and in both cases there is a new auction with the START file, no bid and
    -- no END file; the world stays sound and auctions only grow.
    pub create_auction-Opened :
        IsSound w
        → IsReadable start
        → Ends
            (create_auction s uid name asset_fname start_value timeactive fsize w)
            (Opened start w)
    create_auction-Opened sound h = Ends-eq _ _ create_auction_known (record {
      result = result_known (stored.0 == 0);
      sound =
          set-IsSound (print3 (get_next_auction_id w)) stored.1 (ticked (set_user uid hosting w))
            (ticked-IsSound (set_user uid hosting w) (hosting-IsSound sound)) (stored-IsAuction h);
      grows = Grows-opened_world;
      is_new = get_next_auction_id_new w;
      dir = stored.1;
      there = find-put_self (print3 (get_next_auction_id w)) stored.1 w.auctions;
      opened = same_start;
      no_bids = same_bids;
      open_still = same_end;
    })

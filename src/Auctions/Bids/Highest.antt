-- ===== src/Auctions/Bids/Highest.antt =====
-- The largest of the numbers in the names of the bid files is the last bid.
use mathlib.Core.List.{map}
use auction_simulator.Prelude.{
  ℕ, ◌<◌, ◌≤◌, ◌≡◌, ◌≢◌, refl, sym, ◌∙◌, ap, false, inl, inr, Bool-cases, none, List, [], ◌∷◌, ◌++◌,
  arith, ltb, if◌then◌else◌,
}
use auction_simulator.Text.{Bytes, same, same_iff}
use auction_simulator.Text.Decimal.{atoi, atoi-print}
use auction_simulator.World.Dir.{find, names}
use auction_simulator.World.Platform.{Platform}
use auction_simulator.Auctions.Bids.{max_of, dot_txt}
use auction_simulator.Auctions.Sound.{Bid, bid_name, bid_file, Rising, top_bid}

pub atoi-bid_name : (v : ℕ) → atoi (bid_name v) ≡ v
atoi-bid_name v = atoi-print v dot_txt refl

pub le-max_of : (top : ℕ) (l : List Bytes) → top ≤ max_of top l
unfolding max_of
le-max_of top [] = omega arith
le-max_of top (name ∷ rest) =
    ground (arith, le-max_of (if ltb top (atoi name) then atoi name else top) rest)

module _ ⦃p : Platform⦄ where
  pub max_of-Rising :
      (floor m : ℕ) (bs : List Bid)
      → Rising floor bs
      → m ≤ floor
      → (if ltb floor (max_of m (names (map bid_file bs)))
          then max_of m (names (map bid_file bs))
          else floor)
        ≡ top_bid floor bs
  unfolding max_of
  max_of-Rising floor m [] h le = ground arith
  max_of-Rising floor m (b ∷ bs) (h, hs) le = ground (
    arith,
    atoi-bid_name b.value,
    max_of-Rising b.value b.value bs hs (omega arith),
    le-max_of b.value (names (map bid_file bs)),
  )

  top_bid_ge : (floor : ℕ) (bs : List Bid) → Rising floor bs → floor ≤ top_bid floor bs
  top_bid_ge floor [] h = omega arith
  top_bid_ge floor (b ∷ bs) (h, hs) = omega (arith, top_bid_ge b.value bs hs)

  bid_name_ne : (u v : ℕ) → u ≢ v → same (bid_name u) (bid_name v) ≡ false
  bid_name_ne u v h = elim (Bool-cases (same (bid_name u) (bid_name v))) [
    | inl e ↦ absurd (h (sym (atoi-bid_name u) ∙ ap atoi ((same_iff _ _).0 e) ∙ atoi-bid_name v))
    | inr e ↦ e
  ]

  -- The name of a higher bid is new.
  pub find-higher :
      (floor v : ℕ) (bs : List Bid)
      → Rising floor bs
      → top_bid floor bs < v
      → find (bid_name v) (map bid_file bs) ≡ none
  unfolding find
  find-higher floor v [] h gt = refl
  find-higher floor v (b ∷ bs) (h, hs) gt =
      rw (bid_name_ne b.value v (λ e. omega (arith, top_bid_ge b.value bs hs)))
        (find-higher b.value v bs hs gt)

  pub Rising-append :
      (floor : ℕ) (bs : List Bid) (b : Bid)
      → Rising floor bs
      → top_bid floor bs < b.value
      → Rising floor (bs ++ b ∷ [])
  Rising-append floor [] b h gt = (gt, tt)
  Rising-append floor (c ∷ bs) b (h, hs) gt = (h, Rising-append c.value bs b hs gt)

-- ===== src/Auctions/Listing/Length.antt =====
-- The lists of at most 999 auctions fit the reply.
use auction_simulator.Prelude.{
  ◌*◌, ◌≤◌, ◌≡◌, ap, Bool, true, false, none, some, Option, List, [], ◌∷◌, ◌++◌, arith, length,
  length-append, length-take, All, take, ◌-◌, Option-cases, inl, inr,
}
use auction_simulator.Text.{Bytes, blank, newline}
use auction_simulator.World.{World, UserDir}
use auction_simulator.World.Dir.{find, names, Values, Values-find}
use auction_simulator.World.Platform.{Platform}
use auction_simulator.World.Ends.{Ends, Ends-bind, Ends-mono}
use auction_simulator.Auctions.Listing.{
  append_states, fetch_auctions, strip_all, scandir, status_of, user_auc_status, user_bids_status,
  append_auctions, hosted_names, bidded_names,
}
use auction_simulator.Auctions.Listing.Laws.{entries, state_text, Listed, append_states-Listed}
use auction_simulator.Auctions.Listing.Order.{length-scandir, scandir-All}
use auction_simulator.Auctions.Sound.{IsSound, Kept}
use auction_simulator.Auctions.Growth.{Kept-refl}

abbrev pub IsNarrow : Bytes → Type 0
IsNarrow auc_id = length auc_id ≤ 3

length-state_text : (b : Bool) → length (state_text b) ≡ 1
length-state_text true = omega arith
length-state_text false = omega arith

pub entries-length :
    (ids : List Bytes) (states : List Bool)
    → All IsNarrow ids
    → length (entries ids states) ≤ 6 * length ids
entries-length [] states h = omega arith
entries-length (auc_id ∷ ids) [] h = omega arith
entries-length (auc_id ∷ ids) (b ∷ states) (h, hs) = omega (
  arith,
  entries-length ids states hs,
  length-state_text b,
  length-append (blank ∷ auc_id ++ blank ∷ state_text b) (entries ids states),
  length-append (blank ∷ auc_id) (blank ∷ state_text b),
)

strip_all-IsNarrow : (names : List Bytes) → All IsNarrow (strip_all names)
unfolding strip_all
strip_all-IsNarrow [] = tt
strip_all-IsNarrow (name ∷ names) =
    (omega (arith, length-take 3 (take (length name - 4) name)), strip_all-IsNarrow names)

length-strip_all : (names : List Bytes) → length (strip_all names) ≡ length names
unfolding strip_all
length-strip_all [] = omega arith
length-strip_all (name ∷ names) = omega (arith, length-strip_all names)

pub length-fetch_auctions : (names : List Bytes) → length (fetch_auctions names) ≡ length names
unfolding fetch_auctions
length-fetch_auctions names = omega (arith, length-strip_all (scandir names), length-scandir names)

-- A list that leaves room in the reply.
abbrev pub Room : Option Bytes → Type 0
Room none = Unit
Room (some status) = length status ≤ 9000

-- As "001.txt": `fetch_auctions` copies a name without its last four bytes into an array of four
-- bytes, which a longer name would leave.
abbrev pub IsEntry : Bytes → Type 0
IsEntry name = (5 ≤ length name) × (length name ≤ 8)

pub record Shelves (u : UserDir) : Type 0 where
  pub hosted : length u.hosted ≤ 999
  pub bidded : length u.bidded ≤ 999
  pub hosted_named : All IsEntry u.hosted
  pub bidded_named : All IsEntry u.bidded

-- At most 999 auctions, with names of at most three bytes, and as many of each user.
pub record Few (w : World) : Type 0 where
  pub auctions : length (names w.auctions) ≤ 999
  pub narrow : All IsNarrow (names w.auctions)
  pub users : Values Shelves w.users

hosted_bound : (uid : Bytes) (w : World) → Few w → length (hosted_names (find uid w.users)) ≤ 999
hosted_bound uid w few = elim (Option-cases (find uid w.users)) [
  | inl gone ↦ rw gone (omega arith)
  | inr (u, found) ↦ rw found (Values-find Shelves uid w.users few.users found).hosted
]

bidded_bound : (uid : Bytes) (w : World) → Few w → length (bidded_names (find uid w.users)) ≤ 999
bidded_bound uid w few = elim (Option-cases (find uid w.users)) [
  | inl gone ↦ rw gone (omega arith)
  | inr (u, found) ↦ rw found (Values-find Shelves uid w.users few.users found).bidded
]

module _ ⦃p : Platform⦄ where
  pub append_states-Room :
      (ids : List Bytes) (status : Bytes) (w : World)
      → IsSound w
      → All IsNarrow ids
      → length ids ≤ 999
      → length status ≤ 9
      → Ends (append_states ids status w) (λ reply w'. Kept w w' × (length reply ≤ 9000))
  append_states-Room ids status w s narrow few short =
      Ends-mono (append_states ids status w) (Listed ids status w) _
        (append_states-Listed ids status w s)
        (λ reply w' l. (
          l.kept,
          omega (
            arith,
            ap length l.text,
            length-append status (entries ids l.states),
            entries-length ids l.states narrow,
          ),
        ))

  status_of-Room :
      (names : List Bytes) (status : Bytes) (w : World)
      → IsSound w
      → length names ≤ 999
      → length status ≤ 9
      → Ends (status_of names status w) (λ reply w'. Kept w w' × Room reply)
  unfolding status_of fetch_auctions
  status_of-Room [] status w s few short = (Kept-refl w s, tt)
  status_of-Room (name ∷ rest) status w s few short =
      let sorted = scandir (name ∷ rest) in
      Ends-bind (append_states (fetch_auctions (name ∷ rest)) status w) _
        (λ reply w'. Kept w w' × (length reply ≤ 9000)) (λ reply w'. Kept w w' × Room reply)
        (append_states-Room (fetch_auctions (name ∷ rest)) status w s (strip_all-IsNarrow sorted)
          (omega (arith, length-strip_all sorted, length-scandir (name ∷ rest))) short)
        (λ reply w' k. k)

  pub user_auc_status-Room :
      (uid status : Bytes) (w : World)
      → IsSound w
      → Few w
      → length status ≤ 9
      → Ends (user_auc_status uid status w) (λ reply w'. Kept w w' × Room reply)
  unfolding user_auc_status
  user_auc_status-Room uid status w s few short =
      status_of-Room (hosted_names (find uid w.users)) status w s (hosted_bound uid w few) short

  pub user_bids_status-Room :
      (uid status : Bytes) (w : World)
      → IsSound w
      → Few w
      → length status ≤ 9
      → Ends (user_bids_status uid status w) (λ reply w'. Kept w w' × Room reply)
  unfolding user_bids_status
  user_bids_status-Room uid status w s few short =
      status_of-Room (bidded_names (find uid w.users)) status w s (bidded_bound uid w few) short

  pub append_auctions-Room :
      (status : Bytes) (w : World)
      → IsSound w
      → Few w
      → length status ≤ 9
      → Ends (append_auctions status w) (λ reply w'. Kept w w' × (length reply ≤ 9001))
  unfolding append_auctions
  append_auctions-Room status w s few short =
      let ids = scandir (names w.auctions) in
      Ends-bind (append_states ids status w) _ (λ reply w'. Kept w w' × (length reply ≤ 9000))
        (λ reply w'. Kept w w' × (length reply ≤ 9001))
        (append_states-Room ids status w s (scandir-All IsNarrow (names w.auctions) few.narrow)
          (omega (arith, few.auctions, length-scandir (names w.auctions))) short)
        (λ listed w' (k, fits). (k, omega (arith, length-append listed (newline ∷ []))))

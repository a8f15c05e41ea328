-- ===== src/Client/Listing/Bounds.antt =====
-- The length of the server's lists.
use auction_simulator.Prelude.{
  ◌+◌, ◌*◌, ◌≤◌, ◌≡◌, ◌∙◌, ap, Bool, true, false, List, [], ◌∷◌, ◌++◌, arith, length, length-append,
  All,
}
use auction_simulator.Text.{Bytes, codes, newline, blank}
use auction_simulator.World.{World}
use auction_simulator.World.Ends.{Ends, Ends-mono}
use auction_simulator.World.Platform.{Platform}
use auction_simulator.Auctions.Sound.{IsSound}
use auction_simulator.Auctions.Listing.{append_states}
use auction_simulator.Auctions.Listing.Laws.{
  entries, state_text, Told, Listed, append_states-Listed,
}
use auction_simulator.Client.Listing.Answers.{list_reply}

abbrev pub IsAid : Bytes → Type 0
IsAid auc_id = length auc_id ≡ 3

length-state_text : (b : Bool) → length (state_text b) ≡ 1
length-state_text true = omega arith
length-state_text false = omega arith

length-entries :
    (ids : List Bytes) (states : List Bool)
    → All IsAid ids
    → length ids ≤ length states
    → length (entries ids states) ≡ 6 * length ids
length-entries [] states h enough = omega arith
length-entries (auc_id ∷ ids) [] h enough = absurd (omega arith)
length-entries (auc_id ∷ ids) (b ∷ states) (h, hs) enough = omega (
  arith,
  length-entries ids states hs (omega arith),
  length-state_text b,
  length-append (blank ∷ auc_id ++ blank ∷ state_text b) (entries ids states),
  length-append (blank ∷ auc_id) (blank ∷ state_text b),
)

-- A list of `n` auctions with identifiers of three bytes takes 6 bytes for each, and 7 more under a
-- command of three bytes.
pub length-list_reply :
    (command : Bytes) (ids : List Bytes) (states : List Bool)
    → length command ≡ 3
    → All IsAid ids
    → length ids ≤ length states
    → length (list_reply command ids states) ≡ 6 * length ids + 7
length-list_reply command ids states three h enough = omega (
  arith,
  three,
  length-entries ids states h enough,
  length-append (command ++ codes " OK") (entries ids states ++ newline ∷ []),
  length-append command (codes " OK"),
  length-append (entries ids states) (newline ∷ []),
)

pub Told-length :
    (ids : List Bytes) (states : List Bool) (w w' : World)
    → Told ids states w w'
    → length ids ≤ length states
Told-length [] states w w' t = omega arith
Told-length (auc_id ∷ ids) [] w w' t = absurd t
Told-length (auc_id ∷ ids) (b ∷ states) w w' (_, t) = omega (arith, Told-length ids states w w' t)

module _ ⦃p : Platform⦄ where
  -- In a sound world the loop that appends the states of n auctions with identifiers of three
  -- bytes to a reply ends, and makes the reply 6 n bytes longer.
  pub append_states-length :
      (ids : List Bytes) (status : Bytes) (w : World)
      → IsSound w
      → All IsAid ids
      → Ends
          (append_states ids status w)
          (λ reply w'. length reply ≡ length status + 6 * length ids)
  append_states-length ids status w s h =
      Ends-mono (append_states ids status w) (Listed ids status w) _
        (append_states-Listed ids status w s)
        (λ reply w' l.
          ap length l.text
          ∙ omega (
            arith,
            length-append status (entries ids l.states),
            length-entries ids l.states h (Told-length ids l.states w w' l.told),
          ))

-- ===== src/Tests/Missed.antt =====
-- A list that leaves out the only auction, on a platform that lists it first.
use mathlib.Core.List.Perm
use mathlib.Core.List.{Perm}
use auction_simulator.Prelude.{◌≡◌, refl, some, List, [], ◌∷◌}
use auction_simulator.Text.{Bytes, codes}
use auction_simulator.World.Platform.{Platform}
use auction_simulator.Udp.Dispatch.{process_udp_request}
use auction_simulator.Udp.Queries.Missed.{process_udp_request-missed}
use auction_simulator.Tests.Fixtures.{counting as days, house}

-- A single name stands in front of the dots.
single_first : List Bytes → List Bytes
single_first (name ∷ []) = name ∷ codes "." ∷ codes ".." ∷ []
single_first names = codes "." ∷ codes ".." ∷ names

single_first-Perm :
    (names : List Bytes) → Perm (single_first names) (codes "." ∷ codes ".." ∷ names)
unfolding single_first
single_first-Perm [] = Perm.refl _
single_first-Perm (name ∷ []) =
    Perm.trans (Perm.swap (codes ".") name (codes ".." ∷ []))
      (Perm.cons (codes ".") (Perm.swap (codes "..") name []))
single_first-Perm (name ∷ other ∷ names) = Perm.refl _

abbrev single_in_front : Platform
single_in_front = record days { listed = single_first; listed-perm = single_first-Perm }

process_udp_request-missed_example :
    process_udp_request ⦃p = single_in_front⦄ (codes "LST\n") house
    ≡ some (codes "RLS NOK\n", house)
unfolding single_first
process_udp_request-missed_example =
    process_udp_request-missed ⦃p = single_in_front⦄ (codes "001") house refl

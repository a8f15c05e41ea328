-- ===== src/Auctions/Listing/Order.antt =====
-- `scandir` with `alphasort` of the C library: all names, in order.
use mathlib.Core.List.{Perm}
use mathlib.Core.List.Perm.{refl as same_names, cons, swap, trans}
use auction_simulator.Prelude.{
  ◌+◌, length, All, ◌≡◌, refl, true, false, inl, inr, Bool-cases, List, [], ◌∷◌, arith,
}
use auction_simulator.Text.{Bytes}
use auction_simulator.Auctions.Listing.{precedes, insert, scandir}

precedes-total : (s t : Bytes) → precedes s t ≡ false → precedes t s ≡ true
unfolding precedes
precedes-total [] t e = cc
precedes-total (c ∷ s) [] e = refl
precedes-total (c ∷ s) (d ∷ t) e = ground (arith, precedes-total s t)

-- Each name precedes the next.
abbrev pub Sorted : List Bytes → Type 0
Sorted [] = Unit
Sorted (name ∷ []) = Unit
Sorted (name ∷ other ∷ rest) = (precedes name other ≡ true) × Sorted (other ∷ rest)

insert-Sorted : (name : Bytes) (l : List Bytes) → Sorted l → Sorted (insert name l)
unfolding insert
insert-Sorted name [] h = tt
insert-Sorted name (other ∷ []) h = elim (Bool-cases (precedes name other)) [
  | inl e ↦ rw e (e, tt)
  | inr e ↦ rw e (precedes-total name other e, tt)
]
insert-Sorted name (a ∷ b ∷ rest) (h, hs) = elim (Bool-cases (precedes name a)) [
  | inl e ↦ rw e (e, (h, hs))
  | inr e ↦ rw e (elim (Bool-cases (precedes name b)) [
    | inl f ↦ rw f (precedes-total name a e, (f, hs))
    | inr f ↦ rw f (h, rw f at (insert-Sorted name (b ∷ rest) hs))
  ])
]

insert-Perm : (name : Bytes) (l : List Bytes) → Perm (insert name l) (name ∷ l)
unfolding insert
insert-Perm name [] = same_names _
insert-Perm name (other ∷ rest) = elim (Bool-cases (precedes name other)) [
  | inl e ↦ rw e (same_names _)
  | inr e ↦ rw e (trans (cons other (insert-Perm name rest)) (swap name other rest))
]

pub scandir-Sorted : (l : List Bytes) → Sorted (scandir l)
unfolding scandir
scandir-Sorted [] = tt
scandir-Sorted (name ∷ rest) = insert-Sorted name (scandir rest) (scandir-Sorted rest)

pub scandir-Perm : (l : List Bytes) → Perm (scandir l) l
unfolding scandir
scandir-Perm [] = same_names []
scandir-Perm (name ∷ rest) = trans (insert-Perm name (scandir rest)) (cons name (scandir-Perm rest))

-- A property of every name of a directory holds of its sorted list.
module _ (P : Bytes → Type 0) where
  insert-All : (name : Bytes) (l : List Bytes) → P name → All P l → All P (insert name l)
  unfolding insert
  insert-All name [] h hs = (h, tt)
  insert-All name (other ∷ rest) h (ho, hs) = elim (Bool-cases (precedes name other)) [
    | inl e ↦ rw e (h, (ho, hs))
    | inr e ↦ rw e (ho, insert-All name rest h hs)
  ]

  pub scandir-All : (l : List Bytes) → All P l → All P (scandir l)
  unfolding scandir
  scandir-All [] h = tt
  scandir-All (name ∷ rest) (h, hs) = insert-All name (scandir rest) h (scandir-All rest hs)

length-insert : (name : Bytes) (l : List Bytes) → length (insert name l) ≡ length l + 1
unfolding insert
length-insert name [] = omega arith
length-insert name (other ∷ rest) = ground (arith, length-insert name rest)

pub length-scandir : (l : List Bytes) → length (scandir l) ≡ length l
unfolding scandir
length-scandir [] = refl
length-scandir (name ∷ rest) = omega (arith, length-insert name (scandir rest), length-scandir rest)

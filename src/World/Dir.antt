-- ===== src/World/Dir.antt =====
-- A directory as an association list in the order of creation.
use mathlib.Core.Path.{subst}
use mathlib.Core.Option.{some-injective}
use auction_simulator.Prelude.{
  ◌≡◌, refl, inl, inr, Bool-cases, ◌||◌, Bool, false, Option, none, some, List, [], ◌∷◌, ◌++◌,
  arith, if◌then◌else◌,
}
use auction_simulator.Text.{Bytes, same, same_iff, same_refl}

module _ {ℓ} {V : Type ℓ} where
  unfoldable pub find : Bytes → List (Bytes × V) → Option V
  find k [] = none
  find k ((j, v) ∷ d) = if same j k then some v else find k d

  -- The entry is changed where it stands; a new one comes last.
  unfoldable pub put : Bytes → V → List (Bytes × V) → List (Bytes × V)
  put k v [] = (k, v) ∷ []
  put k v ((j, w) ∷ d) = if same j k then (j, v) ∷ d else (j, w) ∷ put k v d

  pub find-put :
      (j k : Bytes) (v : V) (d : List (Bytes × V))
      → find j (put k v d) ≡ (if same k j then some v else find j d)
  unfolding find put
  find-put j k v [] = refl
  find-put j k v ((i, w) ∷ d) =
      ground (arith, find-put j k v d, same_iff i k, same_iff i j, same_iff k j)

  pub find-put_self : (k : Bytes) (v : V) (d : List (Bytes × V)) → find k (put k v d) ≡ some v
  find-put_self k v d = rw (find-put, same_refl)

  abbrev pub names : List (Bytes × V) → List Bytes
  names [] = []
  names ((k, v) ∷ d) = k ∷ names d

  -- A name that is not there comes last.
  pub put-append :
      (k : Bytes) (v : V) (d : List (Bytes × V)) → find k d ≡ none → put k v d ≡ d ++ (k, v) ∷ []
  unfolding find put
  put-append k v [] h = refl
  put-append k v ((j, w) ∷ d) h = ground (arith, put-append k v d)

unfoldable pub contains : Bytes → List Bytes → Bool
contains k [] = false
contains k (j ∷ names) = same j k || contains k names

-- The names after `fopen(name, "w")`.
unfoldable pub touch : Bytes → List Bytes → List Bytes
unfolding contains
touch k names = if contains k names then names else names ++ k ∷ []

-- A property of every value of a directory.
module _ {ℓ κ} {V : Type ℓ} (P : V → Type κ) where
  abbrev pub Values : List (Bytes × V) → Type κ
  Values [] = Unit
  Values ((k, v) ∷ d) = P v × Values d

  pub Values-find : (k : Bytes) (d : List (Bytes × V)) {v : V} → Values d → find k d ≡ some v → P v
  unfolding find
  Values-find k [] h e = cc
  Values-find k ((j, x) ∷ d) (hx, hs) e = elim (Bool-cases (same j k)) [
    | inl found ↦ subst P (some-injective _ _ (rw found at e)) hx
    | inr other ↦ Values-find k d hs (rw other at e)
  ]

  pub Values-put : (k : Bytes) (v : V) (d : List (Bytes × V)) → P v → Values d → Values (put k v d)
  unfolding put
  Values-put k v [] h _ = (h, tt)
  Values-put k v ((j, x) ∷ d) h (hx, hs) = elim (Bool-cases (same j k)) [
    | inl found ↦ rw found (h, hs)
    | inr other ↦ rw other (hx, Values-put k v d h hs)
  ]

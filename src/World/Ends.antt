-- ===== src/World/Ends.antt =====
-- Outcomes of actions: the process does not crash, and what it leaves has a property.
use auction_simulator.Prelude.{
  ℕ, ◌<◌, length, lt→ltb, ◌≡◌, refl, Bool, true, false, Option, none, some, if◌then◌else◌,
}
use auction_simulator.World.{World}
use auction_simulator.World.Monad.{M, fitted}
use auction_simulator.Text.{Bytes}

module _ {A : Type 0} where
  abbrev pub Ends : Option (A × World) → (A → World → Type 0) → Type 0
  Ends none Q = ⊥
  Ends (some (a, w)) Q = Q a w

  pub Ends-eq :
      (r : Option (A × World)) (Q : A → World → Type 0) {a : A} {w : World}
      → r ≡ some (a, w)
      → Q a w
      → Ends r Q
  Ends-eq r Q e h = rw e h

  pub Ends-mono :
      (r : Option (A × World)) (P Q : A → World → Type 0)
      → Ends r P
      → ((a : A) (w : World) → P a w → Q a w)
      → Ends r Q
  Ends-mono none P Q h f = absurd h
  Ends-mono (some (a, w)) P Q h f = f a w h

  pub Ends-if :
      (b : Bool) (m n : Option (A × World)) (Q : A → World → Type 0)
      → (b ≡ true → Ends m Q)
      → (b ≡ false → Ends n Q)
      → Ends (if b then m else n) Q
  Ends-if true m n Q hm hn = hm refl
  Ends-if false m n Q hm hn = hn refl

module _ {A : Type 0} where
  pub Ends-test :
      (b : Bool) (m n : M A) (w : World) (Q : A → World → Type 0)
      → (b ≡ true → Ends (m w) Q)
      → (b ≡ false → Ends (n w) Q)
      → Ends ((if b then m else n) w) Q
  Ends-test true m n w Q hm hn = hm refl
  Ends-test false m n w Q hm hn = hn refl

  -- The branches on a request that cannot be read, and on one that can.
  pub Ends-read :
      {X : Type 0} (o : Option X) (m : M A) (f : X → M A) (w : World) (Q : A → World → Type 0)
      → Ends (m w) Q
      → ((x : X) → o ≡ some x → Ends (f x w) Q)
      → Ends ((elim o as (λ _. M A) [ none ↦ m | some x ↦ f x ]) w) Q
  Ends-read none m f w Q h k = h
  Ends-read (some x) m f w Q h k = k x refl

  pub Ends-some :
      {X : Type 0} (o : Option X) (m : M A) (f : X → M A) (w : World) (Q : A → World → Type 0)
      {x : X}
      → o ≡ some x
      → Ends (f x w) Q
      → Ends ((elim o as (λ _. M A) [ none ↦ m | some x ↦ f x ]) w) Q
  Ends-some o m f w Q e h = rw e h

module _ {A B : Type 0} where
  pub Ends-bind :
      (r : Option (A × World)) (f : A → M B) (P : A → World → Type 0) (Q : B → World → Type 0)
      → Ends r P
      → ((a : A) (w : World) → P a w → Ends (f a w) Q)
      → Ends (elim r [ none ↦ none | some (a, w) ↦ f a w ]) Q
  Ends-bind none f P Q h k = absurd h
  Ends-bind (some (a, w)) f P Q h k = k a w h

  -- The same where the first part is known.
  pub Ends-next :
      (r : Option (A × World)) (f : A → M B) (Q : B → World → Type 0) {a : A} {w : World}
      → r ≡ some (a, w)
      → Ends (f a w) Q
      → Ends (elim r [ none ↦ none | some (a, w) ↦ f a w ]) Q
  Ends-next r f Q e h = rw e h

pub fitted-Ends :
    (size : ℕ) (got : Bytes) (w : World) (Q : Bytes → World → Type 0)
    → length got < size
    → Q got w
    → Ends (fitted size got w) Q
fitted-Ends size got w Q short h = rw (lt→ltb (length got) size short) h

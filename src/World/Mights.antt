-- ===== src/World/Mights.antt =====
-- Outcomes of actions where the process may crash: if it does not, what it leaves has a property.
use auction_simulator.Prelude.{
  ℕ, ltb, length, ◌≡◌, refl, Bool, true, false, Option, none, some, if◌then◌else◌,
}
use auction_simulator.World.{World}
use auction_simulator.World.Monad.{M, pure, crash, fitted}
use auction_simulator.Text.{Bytes}
use auction_simulator.World.Ends.{Ends}

module _ {A : Type 0} where
  abbrev pub Might : Option (A × World) → (A → World → Type 0) → Type 0
  Might none Q = Unit
  Might (some (a, w)) Q = Q a w

  pub Might-Ends : (r : Option (A × World)) (Q : A → World → Type 0) → Ends r Q → Might r Q
  Might-Ends none Q h = tt
  Might-Ends (some (a, w)) Q h = h

  pub Might-mono :
      (r : Option (A × World)) (P Q : A → World → Type 0)
      → Might r P
      → ((a : A) (w : World) → P a w → Q a w)
      → Might r Q
  Might-mono none P Q h f = tt
  Might-mono (some (a, w)) P Q h f = f a w h

  pub Might-test :
      (b : Bool) (m n : M A) (w : World) (Q : A → World → Type 0)
      → (b ≡ true → Might (m w) Q)
      → (b ≡ false → Might (n w) Q)
      → Might ((if b then m else n) w) Q
  Might-test true m n w Q hm hn = hm refl
  Might-test false m n w Q hm hn = hn refl

  -- The branches on a text that cannot be read, and on one that can.
  pub Might-read :
      {X : Type 0} (o : Option X) (m : M A) (f : X → M A) (w : World) (Q : A → World → Type 0)
      → Might (m w) Q
      → ((x : X) → o ≡ some x → Might (f x w) Q)
      → Might ((elim o as (λ _. M A) [ none ↦ m | some x ↦ f x ]) w) Q
  Might-read none m f w Q h k = h
  Might-read (some x) m f w Q h k = k x refl

module _ {A B : Type 0} where
  pub Might-bind :
      (r : Option (A × World)) (f : A → M B) (P : A → World → Type 0) (Q : B → World → Type 0)
      → Might r P
      → ((a : A) (w : World) → P a w → Might (f a w) Q)
      → Might (elim r [ none ↦ none | some (a, w) ↦ f a w ]) Q
  Might-bind none f P Q h k = tt
  Might-bind (some (a, w)) f P Q h k = k a w h

pub fitted-Might :
    (size : ℕ) (got : Bytes) (w : World) (Q : Bytes → World → Type 0)
    → Q got w
    → Might (fitted size got w) Q
fitted-Might size got w Q h =
    Might-test (ltb (length got) size) (pure got) crash w Q (λ _. h) (λ _. tt)

-- ===== src/World/Monad.antt =====
-- Functions of the server as actions on the world. `none` is the end of the process by undefined
-- behaviour: a null stream or directory is used, a variable that `fscanf` has left unset, or an array
-- beyond its end.
use auction_simulator.Prelude.{
  ℕ, ◌+◌, Option, none, some, List, [], ◌∷◌, ltb, length, if◌then◌else◌,
}
use auction_simulator.Text.{Bytes}
use auction_simulator.World.{World}

abbrev pub M : Type 0 → Type 0
M A = World → Option (A × World)

infixl 5 ◌>>=◌ ◌>>◌
abbrev pub ◌>>=◌ : {A B : Type 0} → M A → (A → M B) → M B
◌>>=◌ m f w = elim (m w) [ none ↦ none | some (a, w') ↦ f a w' ]

abbrev pub ◌>>◌ : {B : Type 0} → M (Unit {0}) → M B → M B
m >> n = m >>= λ _. n

abbrev pub pure : {A : Type 0} → A → M A
pure a w = some (a, w)

abbrev pub crash : {A : Type 0} → M A
crash w = none

abbrev pub gets : {A : Type 0} → (World → A) → M A
gets f w = some (f w, w)

abbrev pub sum_head : ℕ → List ℕ → ℕ
sum_head now [] = now
sum_head now (t ∷ ts) = now + t

abbrev pub rest_of : List ℕ → List ℕ
rest_of [] = []
rest_of (t ∷ ts) = ts

abbrev pub reading : World → ℕ
reading w = sum_head w.now w.ticks

-- The world after a reading of the clock.
abbrev pub ticked : World → World
ticked w = record w { now = reading w; ticks = rest_of w.ticks }

-- `time(NULL)`
abbrev pub time : M ℕ
time w = some (reading w, ticked w)

abbrev pub modify : (World → World) → M (Unit {0})
modify f w = some (tt, f w)

-- A text that must fit an array of `size` bytes with the NUL behind it.
abbrev pub fitted : ℕ → Bytes → M Bytes
fitted size got = if ltb (length got) size then pure got else crash

-- ===== src/Text/Chars.antt =====
-- Bytes, the character classes of the C locale and the equality test of `strcmp`.
use Prim.Native.Char.{code}
use Prim.Native.String.{String}
use auction_simulator.Prelude.{
  ℕ, ◌≡◌, refl, ◌↔◌, Bool, true, false, ◌&&◌, ◌||◌, not, if◌then◌else◌, List, [], ◌∷◌, arith, leb,
  ◌==◌,
}

abbrev pub Bytes : Type 0
Bytes = List ℕ

-- The bytes of an ASCII literal.
abbrev pub codes : String → Bytes
codes String.[] = []
codes (String.◌∷◌ c s) = code c ∷ codes s

abbrev pub newline : ℕ
newline = b'\n'

abbrev pub blank : ℕ
blank = b' '

abbrev pub is_digit : ℕ → Bool
is_digit c = leb b'0' c && leb c b'9'

abbrev pub is_alpha : ℕ → Bool
is_alpha c = (leb b'a' c && leb c b'z') || (leb b'A' c && leb c b'Z')

abbrev pub is_alnum : ℕ → Bool
is_alnum c = is_digit c || is_alpha c

-- `isspace`: the white space that `scanf` skips and that ends a `%s`.
abbrev pub is_space : ℕ → Bool
is_space c = c == blank || (leb 9 c && leb c 13)

unfoldable pub all : (ℕ → Bool) → Bytes → Bool
all test [] = true
all test (c ∷ s) = test c && all test s

-- The string that stands at the front of an array: the bytes before the first NUL.
unfoldable pub c_string : Bytes → Bytes
c_string [] = []
c_string (c ∷ s) = if c == 0 then [] else c ∷ c_string s

abbrev pub is_filled : ℕ → Bool
is_filled c = not (c == 0)

pub c_string_whole : (s : Bytes) → all is_filled s ≡ true → c_string s ≡ s
unfolding c_string all
c_string_whole [] h = refl
c_string_whole (c ∷ s) h = ground (arith, c_string_whole s)

-- `strcmp(s, t) == 0`
unfoldable pub same : Bytes → Bytes → Bool
same [] [] = true
same [] (d ∷ t) = false
same (c ∷ s) [] = false
same (c ∷ s) (d ∷ t) = c == d && same s t

pub same_iff : (s t : Bytes) → (same s t ≡ true) ↔ (s ≡ t)
unfolding same
same_iff [] [] = (λ _. refl, λ _. refl)
same_iff [] (d ∷ t) = (λ h. cc, λ h. cc)
same_iff (c ∷ s) [] = (λ h. cc, λ h. cc)
same_iff (c ∷ s) (d ∷ t) = ground (arith, same_iff s t)

pub same_refl : (s : Bytes) → same s s ≡ true
same_refl s = (same_iff s s).1 refl

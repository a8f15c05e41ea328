-- ===== src/Client/Buffer/Lines.antt =====
-- A line of tokens with one space between them passes `verify_buffer`.
use auction_simulator.Prelude.{
  ℕ, ◌<◌, ◌≡◌, refl, ◌∙◌, true, false, List, [], ◌∷◌, ◌++◌, arith, ◌==◌, length, length-append, All,
}
use auction_simulator.Text.{Bytes, newline, blank, all}
use auction_simulator.Socket.Fields.{is_plain}
use auction_simulator.Client.Buffer.{ends_line, has_gap, verify_buffer}

-- A text with no separator in it.
pub record IsToken (t : Bytes) : Type 0 where
  pub plain : all is_plain t ≡ true
  pub filled : 0 < length t

abbrev pub IsTokens : List Bytes → Type 0
IsTokens = All IsToken

unfoldable pub line : Bytes → List Bytes → Bytes
line t [] = t ++ newline ∷ []
line t (u ∷ ts) = t ++ blank ∷ line u ts

ends_line-append : (t : Bytes) (c : ℕ) (s : Bytes) → ends_line (t ++ c ∷ s) ≡ ends_line (c ∷ s)
unfolding ends_line
ends_line-append [] c s = refl
ends_line-append (d ∷ []) c s = refl
ends_line-append (d ∷ e ∷ t) c s = ends_line-append (e ∷ t) c s

line_filled : (t : Bytes) (ts : List Bytes) → 0 < length (line t ts)
unfolding line
line_filled t [] = omega (arith, length-append t (newline ∷ []))
line_filled t (u ∷ ts) = omega (arith, length-append t (blank ∷ line u ts))

ends_line-blank : (s : Bytes) → 0 < length s → ends_line (blank ∷ s) ≡ ends_line s
unfolding ends_line
ends_line-blank [] h = absurd (omega arith)
ends_line-blank (c ∷ s) h = refl

ends_line-line : (t : Bytes) (ts : List Bytes) → ends_line (line t ts) ≡ true
unfolding line
ends_line-line t [] = ends_line-append t newline [] ∙ unfold ends_line in refl
ends_line-line t (u ∷ ts) =
    ends_line-append t blank (line u ts)
    ∙ ends_line-blank (line u ts) (line_filled u ts)
    ∙ ends_line-line u ts

gap_newline : (t : Bytes) → all is_plain t ≡ true → has_gap (t ++ newline ∷ []) ≡ false
unfolding has_gap all
gap_newline [] h = refl
gap_newline (c ∷ []) h = ground arith
gap_newline (c ∷ d ∷ t) h = ground (arith, gap_newline (d ∷ t))

gap_blank :
    (c : ℕ) (t u : Bytes)
    → all is_plain (c ∷ t) ≡ true
    → has_gap ((c ∷ t) ++ blank ∷ u) ≡ has_gap (blank ∷ u)
unfolding has_gap all
gap_blank c [] u h = ground arith
gap_blank c (d ∷ t) u h = ground (arith, gap_blank d t u)

-- A line does not begin with a space.
first_plain :
    (c : ℕ) (t : Bytes) (s : Bytes)
    → all is_plain (c ∷ t) ≡ true
    → has_gap (blank ∷ ((c ∷ t) ++ s)) ≡ has_gap ((c ∷ t) ++ s)
unfolding has_gap all
first_plain c t s h = ground arith

blank-line :
    (t : Bytes) (ts : List Bytes) → IsToken t → has_gap (blank ∷ line t ts) ≡ has_gap (line t ts)
unfolding line
blank-line [] ts h = absurd (omega (arith, h.filled))
blank-line (c ∷ t) [] h = first_plain c t (newline ∷ []) h.plain
blank-line (c ∷ t) (u ∷ ts) h = first_plain c t (blank ∷ line u ts) h.plain

gap-line : (t : Bytes) (ts : List Bytes) → IsToken t → IsTokens ts → has_gap (line t ts) ≡ false
unfolding line
gap-line t [] h hs = gap_newline t h.plain
gap-line [] (u ∷ ts) h hs = absurd (omega (arith, h.filled))
gap-line (c ∷ t) (u ∷ ts) h (hu, hs) =
    gap_blank c t (line u ts) h.plain ∙ blank-line u ts hu ∙ gap-line u ts hu hs

line-cons :
    (c : ℕ) (t : Bytes) (ts : List Bytes) → (r : Bytes) × (line (c ∷ t) ts ≡ c ∷ r) × (0 < length r)
unfolding line
line-cons c t [] = (t ++ newline ∷ [], refl, omega (arith, length-append t (newline ∷ [])))
line-cons c t (u ∷ ts) =
    (t ++ blank ∷ line u ts, refl, omega (arith, length-append t (blank ∷ line u ts)))

first_ne_blank : (c : ℕ) (t : Bytes) → all is_plain (c ∷ t) ≡ true → (c == blank) ≡ false
unfolding all
first_ne_blank c t h = ground arith

-- Such a line is accepted.
pub verify_buffer-line :
    (t : Bytes) (ts : List Bytes) → IsToken t → IsTokens ts → verify_buffer (line t ts) ≡ true
unfolding verify_buffer
verify_buffer-line [] ts h hs = absurd (omega (arith, h.filled))
verify_buffer-line (c ∷ t) ts h hs =
    let (r, e, more) = line-cons c t ts in
    let ended = ends_line-line (c ∷ t) ts in
    let no_gap = gap-line (c ∷ t) ts h hs in
    rw e (ground (arith, rw e at ended, rw e at no_gap, first_ne_blank c t h.plain))

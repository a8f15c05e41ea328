-- ===== src/Client/Record/Laws.antt =====
-- The machine of `showRecord` on the tokens of a record: what each round does.
use auction_simulator.Prelude.{
  ℕ, zero, suc, ◌+◌, ◌≤◌, ◌<◌, ◌≡◌, refl, ◌∙◌, Bool, true, Option, none, some, List, [], ◌∷◌, ◌++◌,
  arith, length,
}
use auction_simulator.Text.{Bytes, all}
use auction_simulator.Socket.Fields.{is_plain}
use auction_simulator.Client.Buffer.{read_buffer_token}
use auction_simulator.Client.Buffer.Laws.{
  read_buffer_token-blank, read_buffer_token-newline, past, past-append, length-past,
}
use auction_simulator.Client.Buffer.Lines.{line}
use auction_simulator.Client.Record.{Part, Printer, print_token, print_record}

-- A token that fits the array `token`.
pub record Fits (t : Bytes) : Type 0 where
  pub plain : all is_plain t ≡ true
  pub short : length t ≤ 24
  pub filled : 0 < length t

abbrev pub state : Part → Bool → Option ℕ → Bytes → Printer
state part first index out = record { part = part; first_bid = first; index = index; out = out }

-- The loop before the tokens `t ∷ ts` of a line.
abbrev pub go : ℕ → Bytes → Bytes → List Bytes → Part → Bool → Bytes → Option Bytes
go n before t ts part first out =
    print_record n (before ++ line t ts) (length before) (state part first none out)

-- The index of the last token makes no difference.
index_free :
    (n : ℕ) (buffer : Bytes) (i : ℕ) (part : Part) (first : Bool) (j : Option ℕ) (out : Bytes)
    → print_record n buffer i (state part first j out)
      ≡ print_record n buffer i (state part first none out)
unfolding print_record
index_free zero buffer i part first j out = refl
index_free (suc n) buffer i part first j out = refl

read_more :
    (before t u : Bytes) (ts : List Bytes)
    → Fits t
    → read_buffer_token (before ++ line t (u ∷ ts)) 25 (length before)
      ≡ some (t, some (length before + length t))
unfolding line
read_more before t u ts h =
    read_buffer_token-blank 25 before t (line u ts) h.plain (omega (arith, h.short))

read_last :
    (before t : Bytes)
    → Fits t
    → length t < 24
    → read_buffer_token (before ++ line t []) 25 (length before) ≡ some (t, none)
unfolding line
read_last before t h short = read_buffer_token-newline 25 before t [] h.plain (omega arith)

behind :
    (before t u : Bytes) (ts : List Bytes) → before ++ line t (u ∷ ts) ≡ past before t ++ line u ts
unfolding line
behind before t u ts = past-append before t (line u ts)

module _ (n : ℕ) (buffer : Bytes) (i : ℕ) (part part' : Part) (first first' : Bool)
    (out out' t : Bytes) where
  round_more :
      (k : ℕ) (j : Option ℕ)
      → read_buffer_token buffer 25 i ≡ some (t, j)
      → print_token buffer t (state part first j out) part ≡ some (state part' first' (some k) out')
      → print_record (suc n) buffer i (state part first none out)
        ≡ print_record n buffer (k + 1) (state part' first' none out')
  unfolding print_record
  round_more k j reads prints =
      ground (arith, reads, prints, index_free n buffer (k + 1) part' first' (some k) out')

  round_last :
      (j : Option ℕ)
      → read_buffer_token buffer 25 i ≡ some (t, j)
      → print_token buffer t (state part first j out) part ≡ some (state part' first' none out')
      → print_record (suc n) buffer i (state part first none out) ≡ some out'
  unfolding print_record
  round_last j reads prints = ground (arith, reads, prints)

-- What the machine does with a token, whatever is read behind it.
abbrev pub Prints : Bytes → Part → Bool → Bytes → Part → Bool → Bytes → Type 0
Prints t part first out part' first' out' =
    (buffer : Bytes) (j : Option ℕ)
    → print_token buffer t (state part first j out) part ≡ some (state part' first' j out')

module _ (n : ℕ) (before t : Bytes) (part part' : Part) (first first' : Bool)
    (out out' : Bytes) where
  -- A round that prints one token and goes on.
  pub one :
      (u : Bytes) (ts : List Bytes)
      → Prints t part first out part' first' out'
      → Fits t
      → go (suc n) before t (u ∷ ts) part first out ≡ go n (past before t) u ts part' first' out'
  one u ts prints h =
      round_more n _ (length before) part part' first first' out out' t (length before + length t) _
        (read_more before t u ts h) (prints _ _)
      ∙ rw (behind before t u ts, ← length-past before t) refl

  -- A round that prints the last token.
  pub last :
      ((buffer : Bytes)
        → print_token buffer t (state part first none out) part
          ≡ some (state part' first' none out'))
      → Fits t
      → length t < 24
      → go (suc n) before t [] part first out ≡ some out'
  last prints h short =
      round_last n _ (length before) part part' first first' out out' t none
        (read_last before t h short) (prints _)

  -- A round that prints two tokens and goes on.
  pub two :
      (u v : Bytes) (ts : List Bytes)
      → ((buffer : Bytes) (i k : ℕ)
          → read_buffer_token buffer 25 (i + 1) ≡ some (u, some k)
          → print_token buffer t (state part first (some i) out) part
            ≡ some (state part' first' (some k) out'))
      → Fits t
      → Fits u
      → go (suc n) before t (u ∷ v ∷ ts) part first out
        ≡ go n (past (past before t) u) v ts part' first' out'
  two u v ts prints h hu =
      let second : read_buffer_token (before ++ line t (u ∷ v ∷ ts)) 25
            (length before + length t + 1)
          ≡ some (u, some (length (past before t) + length u)) =
        rw (behind before t u (v ∷ ts), ← length-past before t)
          (read_more (past before t) u v ts hu) in
      round_more n _ (length before) part part' first first' out out' t
        (length (past before t) + length u) (some (length before + length t))
        (read_more before t u (v ∷ ts) h) (prints _ _ _ second)
      ∙ rw
          (
            behind before t u (v ∷ ts),
            behind (past before t) u v ts,
            ← length-past (past before t) u,
          )
          refl

-- ===== src/Socket/Fields.antt =====
-- What `read_field` accepts, on every input and whatever pieces the kernel hands over.
use auction_simulator.Prelude.{
  Option, none, some, Bool-cases, ℕ, zero, suc, ◌+◌, ◌<◌, ◌≡◌, ◌≢◌, refl, sym, ap, ◌∙◌, ◌⊎◌, inl,
  inr, Bool, true, false, not, ◌&&◌, List, [], ◌∷◌, ◌++◌, append_assoc, append-nil, arith, ◌==◌,
  length, if◌then◌else◌,
}
use auction_simulator.Text.{Bytes, newline, blank, all}
use auction_simulator.Socket.{
  Socket, granted, later_limits, read, FieldEnd, more, last, failed, Field, field_loop,
}

abbrev pub is_plain : ℕ → Bool
is_plain c = not (c == blank) && not (c == newline)

granted_one : (limits : List ℕ) → granted 1 limits ≡ 1
granted_one [] = refl
granted_one (l ∷ ls) = omega arith

-- A round: the end of the stream, or the next byte.
round : ℕ → Bytes → ℕ → Socket → Field
round n buffer c s' =
    let rest = field_loop n (buffer ++ c ∷ []) s' in
    if c == blank
    then (if length buffer == 0
        then record { returned = failed; buffer = buffer ++ c ∷ []; socket = s' }
        else record { returned = more (length buffer + 1); buffer = buffer; socket = s' })
    else if c == newline
    then record { returned = last; buffer = buffer; socket = s' }
    else rest

pub read_one :
    (c : ℕ) (cs : Bytes) (limits : List ℕ)
    → read 1 (record { input = c ∷ cs; limits = limits })
      ≡ (c ∷ [], record { input = cs; limits = later_limits limits })
unfolding read
read_one c cs limits = rw (granted_one limits)

read_nothing : (limits : List ℕ) → (read 1 (record { input = []; limits = limits })).0 ≡ []
unfolding read
read_nothing limits = rw (granted_one limits)

field_loop-round :
    (n : ℕ) (buffer : Bytes) (c : ℕ) (cs : Bytes) (limits : List ℕ)
    → field_loop (suc n) buffer (record { input = c ∷ cs; limits = limits })
      ≡ round n buffer c (record { input = cs; limits = later_limits limits })
unfolding field_loop round
field_loop-round n buffer c cs limits = ground (arith, read_one c cs limits)

field_loop_nothing :
    (n : ℕ) (buffer : Bytes) (limits : List ℕ)
    → (field_loop n buffer (record { input = []; limits = limits })).returned ≡ failed
unfolding field_loop
field_loop_nothing zero buffer limits = refl
field_loop_nothing (suc n) buffer limits = ground (arith, read_nothing limits)

-- The byte that ends a field, by the result.
abbrev pub closes : FieldEnd → Option ℕ
closes (more k) = some blank
closes last = some newline
closes failed = none

-- How a loop that succeeds has read its field: `text` is what it adds to the buffer.
pub record Read (n close : ℕ) (before source : Bytes) (f : Field) : Type 0 where
  pub text : Bytes
  pub buffer : f.buffer ≡ before ++ text
  pub shape : source ≡ text ++ close ∷ f.socket.input
  pub size : length text < n
  pub plain : all is_plain text ≡ true
  pub filled : close ≡ blank → f.buffer ≢ []

length-nonzero : (s : Bytes) → (length s == 0) ≡ false → s ≢ []
length-nonzero [] h = cc
length-nonzero (c ∷ s) h = λ e. cc

round_sound :
    (n close : ℕ) (before : Bytes) (c : ℕ) (s : Socket)
    → closes (round n before c s).returned ≡ some close
    → (closes (field_loop n (before ++ c ∷ []) s).returned ≡ some close
        → Read n close (before ++ c ∷ []) s.input (field_loop n (before ++ c ∷ []) s))
    → Read (suc n) close before (c ∷ s.input) (round n before c s)
unfolding round all
round_sound n close before c s e ih = elim (Bool-cases (c == blank)) [
  | inl b ↦ elim (Bool-cases (length before == 0)) [
    | inl z ↦ absurd (ground arith)
    | inr z ↦
        rw (b, z)
          (record {
            text = [];
            buffer = sym (append-nil before);
            shape = ground arith;
            size = omega arith;
            plain = refl;
            filled = λ _. length-nonzero before z;
          })
  ]
  | inr b ↦ elim (Bool-cases (c == newline)) [
    | inl l ↦
        rw (b, l)
          (record {
            text = [];
            buffer = sym (append-nil before);
            shape = ground arith;
            size = omega arith;
            plain = refl;
            filled = λ h. absurd (ground arith);
          })
    | inr l ↦
        rw (b, l)
          (let h = ih (ground arith) in
            record {
              text = c ∷ h.text;
              buffer = h.buffer ∙ append_assoc before (c ∷ []) h.text;
              shape = ap (λ xs. c ∷ xs) h.shape;
              size = omega (arith, h.size);
              plain = ground (arith, h.plain);
              filled = h.filled;
            })
  ]
]

pub loop_sound :
    (n close : ℕ) (before input : Bytes) (limits : List ℕ)
    → closes (field_loop n before (record { input = input; limits = limits })).returned ≡ some close
    → Read n close before input (field_loop n before (record { input = input; limits = limits }))
loop_sound n close before [] limits e = absurd (cc (field_loop_nothing n before limits))
loop_sound zero close before (c ∷ cs) limits e = absurd (unfold field_loop in cc e)
loop_sound (suc n) close before (c ∷ cs) limits e = rw (field_loop-round n before c cs limits) (
    round_sound n close before c _ (rw (field_loop-round n before c cs limits) at e)
      (loop_sound n close (before ++ c ∷ []) cs (later_limits limits)))

-- A loop that reads `text` and the byte that closes it.
pub record Reads (close : ℕ) (before text rest : Bytes) (f : Field) : Type 0 where
  pub closed : closes f.returned ≡ some close
  pub buffer : f.buffer ≡ before ++ text
  pub left : f.socket.input ≡ rest

abbrev pub IsClose : ℕ → Type 0
IsClose close = (close ≡ blank) ⊎ (close ≡ newline)

plain_parts :
    (c : ℕ) (text : Bytes)
    → all is_plain (c ∷ text) ≡ true
    → ((c == blank) ≡ false) × ((c == newline) ≡ false) × (all is_plain text ≡ true)
unfolding all
plain_parts c text h = (ground arith, ground arith, ground arith)

length-zero : (s : Bytes) → (length s == 0) ≡ true → s ≡ []
length-zero [] h = refl
length-zero (c ∷ s) h = absurd (ground arith)

round_close :
    (n close : ℕ) (before : Bytes) (s : Socket)
    → IsClose close
    → (close ≡ blank → before ≢ [])
    → Reads close before [] s.input (round n before close s)
unfolding round
round_close n close before s (inl b) filled =
    let seen : (length before == 0) ≡ false = elim (Bool-cases (length before == 0)) [
      | inl z ↦ absurd (filled b (length-zero before z))
      | inr z ↦ z
    ] in
    let sp : (close == blank) ≡ true = ground arith in
    rw (sp, seen) (record { closed = ground arith; buffer = sym (append-nil before); left = refl })
round_close n close before s (inr l) filled =
    let sp : (close == blank) ≡ false = ground arith in
    let nl : (close == newline) ≡ true = ground arith in
    rw (sp, nl) (record { closed = ground arith; buffer = sym (append-nil before); left = refl })

round_plain :
    (n close c : ℕ) (text before rest : Bytes) (s : Socket)
    → all is_plain (c ∷ text) ≡ true
    → Reads close (before ++ c ∷ []) text rest (field_loop n (before ++ c ∷ []) s)
    → Reads close before (c ∷ text) rest (round n before c s)
unfolding round
round_plain n close c text before rest s plain r =
    let (b, l, others) = plain_parts c text plain in
    rw (b, l)
      (record {
        closed = r.closed;
        buffer = r.buffer ∙ append_assoc before (c ∷ []) text;
        left = r.left;
      })

-- A field that fits is read whole.
pub loop_complete :
    (n close : ℕ) (text before rest : Bytes) (limits : List ℕ)
    → IsClose close
    → length text < n
    → all is_plain text ≡ true
    → (close ≡ blank → before ++ text ≢ [])
    → Reads close before text rest
        (field_loop n before (record { input = text ++ close ∷ rest; limits = limits }))
loop_complete zero close text before rest limits which size plain filled = absurd (omega arith)
loop_complete (suc n) close [] before rest limits which size plain filled =
    rw (field_loop-round n before close rest limits)
      (round_close n close before _ which (rw append-nil at filled))
loop_complete (suc n) close (c ∷ text) before rest limits which size plain filled =
    rw (field_loop-round n before c (text ++ close ∷ rest) limits) (
      round_plain n close c text before rest _ plain (
        loop_complete n close text (before ++ c ∷ []) rest (later_limits limits) which (omega arith)
          (plain_parts c text plain).2 (λ h. rw append_assoc (filled h))))

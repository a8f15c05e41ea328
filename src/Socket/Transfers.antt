-- ===== src/Socket/Transfers.antt =====
-- `store_file` on every input, whatever pieces the kernel hands over.
use auction_simulator.Prelude.{
  ℕ, zero, suc, ◌-◌, ◌≤◌, ◌<◌, ◌≡◌, refl, sym, ap, ◌∙◌, ◌⊎◌, inl, inr, false, List, [], ◌∷◌, ◌++◌,
  append_assoc, append-nil, arith, ltb, leb, ◌==◌, length, take, drop, take_split, drop_split,
  length-take, length-drop, take_all, drop_nil, min, if◌then◌else◌,
}
use auction_simulator.Text.{Bytes, newline}
use auction_simulator.Socket.{Socket, granted, later_limits, read, Transfer, store_loop, store_file}

-- Of `count` bytes at least one is granted.
granted_bounds :
    (count : ℕ) (limits : List ℕ)
    → 0 < count
    → (0 < granted count limits) × (granted count limits ≤ count)
granted_bounds count [] h = omega arith
granted_bounds count (l ∷ ls) h = omega arith

List-cases : (xs : Bytes) → (xs ≡ []) ⊎ ((c : ℕ) × (cs : Bytes) × (xs ≡ c ∷ cs))
List-cases [] = inl refl
List-cases (c ∷ cs) = inr (c, cs, refl)

abbrev chunk : ℕ → ℕ
chunk left = if ltb left 1024 then left else 1024

-- What the loop leaves of `left` bytes to read, from a socket with this input.
record Moves (left : ℕ) (before input : Bytes) (t : Transfer) : Type 0 where
  whole : t.whole ≡ leb left (length input)
  stored : t.stored ≡ before ++ take left input
  rest : t.socket.input ≡ drop left input

store_loop_step :
    (n left : ℕ) (stored : Bytes) (first : ℕ) (s : Socket) (c : ℕ) (cs : Bytes)
    → take (granted (chunk (suc left)) s.limits) s.input ≡ c ∷ cs
    → store_loop (suc n) (suc left) stored first s
      ≡ store_loop n (suc left - length (c ∷ cs)) (stored ++ c ∷ cs) c (record {
        input = drop (granted (chunk (suc left)) s.limits) s.input;
        limits = later_limits s.limits;
      })
unfolding store_loop
store_loop_step n left stored first s c cs e = ground arith

store_loop_end :
    (n left : ℕ) (stored : Bytes) (first : ℕ) (s : Socket)
    → take (granted (chunk (suc left)) s.limits) s.input ≡ []
    → store_loop (suc n) (suc left) stored first s ≡ record {
      whole = false;
      stored = stored;
      first = first;
      socket = record {
        input = drop (granted (chunk (suc left)) s.limits) s.input;
        limits = later_limits s.limits;
      };
    }
unfolding store_loop
store_loop_end n left stored first s e = ground arith

take_nil : (g : ℕ) (xs : Bytes) → 0 < g → take g xs ≡ [] → xs ≡ []
take_nil zero xs h e = absurd (omega arith)
take_nil (suc g) [] h e = refl
take_nil (suc g) (x ∷ xs) h e = cc

-- A round that moves the bytes `c ∷ cs`, and the rest of the loop after it.
module _ (left : ℕ) (before : Bytes) (s : Socket) (c : ℕ) (cs : Bytes)
    (got : take (granted (chunk (suc left)) s.limits) s.input ≡ c ∷ cs) where
  abbrev share : ℕ
  share = granted (chunk (suc left)) s.limits

  share_fits : share ≤ suc left
  share_fits = ground (arith, (granted_bounds (chunk (suc left)) s.limits (ground arith)).1)

  size_moved : suc (length cs) ≡ min share (length s.input)
  size_moved = sym (ap length got) ∙ length-take share s.input

  round-Moves :
      (t : Transfer)
      → Moves (suc left - suc (length cs)) (before ++ c ∷ cs) (drop share s.input) t
      → Moves (suc left) before s.input t
  round-Moves t m = record {
    whole = m.whole ∙ ground (arith, share_fits, size_moved, length-drop share s.input);
    stored =
        m.stored
        ∙ append_assoc before (c ∷ cs) _
        ∙ ap (λ xs. before ++ xs)
            (sym (rw got at (take_split share (suc left) s.input share_fits)));
    rest = m.rest ∙ sym (rw got at (drop_split share (suc left) s.input share_fits));
  }

-- The fuel is enough when it is at least the count of bytes left.
store_loop-Moves :
    (n left : ℕ) (stored : Bytes) (first : ℕ) (s : Socket)
    → left ≤ n
    → Moves left stored s.input (store_loop n left stored first s)
store_loop-Moves zero left stored first s h =
    let e : left ≡ 0 = omega arith in
    unfold store_loop in
    rw e (record { whole = ground arith; stored = sym (append-nil stored); rest = refl })
store_loop-Moves (suc n) zero stored first s h =
    unfold store_loop in
    record { whole = ground arith; stored = sym (append-nil stored); rest = refl }
store_loop-Moves (suc n) (suc left) stored first s h =
    elim (List-cases (take (granted (chunk (suc left)) s.limits) s.input)) [
      | inl e ↦
          let some_asked = granted_bounds (chunk (suc left)) s.limits (ground arith) in
          let empty : s.input ≡ [] = take_nil _ s.input some_asked.0 e in
          rw (store_loop_end n left stored first s e) (record {
            whole = rw empty (ground arith);
            stored = rw empty (sym (append-nil stored));
            rest = rw empty (drop_nil _);
          })
      | inr (c, cs, e) ↦ rw (store_loop_step n left stored first s c cs e) (
          round-Moves left stored s c cs e _
            (store_loop-Moves n (suc left - suc (length cs)) (stored ++ c ∷ cs) c _ (omega arith)))
    ]

-- The loop of store_file ends in as many rounds as there are bytes left to read: any two bounds
-- on its rounds that are at least that number give the same result, from every state of the loop
-- and whatever pieces the socket hands over.
pub store_loop_rounds :
    (n m left : ℕ) (stored : Bytes) (first : ℕ) (s : Socket)
    → left ≤ n
    → left ≤ m
    → store_loop n left stored first s ≡ store_loop m left stored first s
store_loop_rounds zero zero left stored first s h k = refl
store_loop_rounds zero (suc m) left stored first s h k =
    let e : left ≡ 0 = omega arith in unfold store_loop in rw e refl
store_loop_rounds (suc n) zero left stored first s h k =
    let e : left ≡ 0 = omega arith in unfold store_loop in rw e refl
store_loop_rounds (suc n) (suc m) zero stored first s h k = unfold store_loop in refl
store_loop_rounds (suc n) (suc m) (suc left) stored first s h k =
    elim (List-cases (take (granted (chunk (suc left)) s.limits) s.input)) [
      | inl e ↦
          store_loop_end n left stored first s e ∙ sym (store_loop_end m left stored first s e)
      | inr (c, cs, e) ↦
          store_loop_step n left stored first s c cs e
          ∙ store_loop_rounds n m (suc left - length (c ∷ cs)) (stored ++ c ∷ cs) c _ (omega arith)
              (omega arith)
          ∙ sym (store_loop_step m left stored first s c cs e)
    ]

-- The byte behind the file.
read_one : (s : Socket) (c : ℕ) (rest : Bytes) → s.input ≡ c ∷ rest → (read 1 s).0 ≡ c ∷ []
unfolding read
read_one s c rest e = rw (e, one s.limits)
  where
    one : (limits : List ℕ) → granted 1 limits ≡ 1
    one [] = refl
    one (l ∷ ls) = omega arith

-- When a byte follows the bytes of the file, store_file writes exactly the announced number of
-- bytes, whatever pieces the socket hands over, and returns that number if the byte behind them
-- is a line end and 0 if not.
pub store_file_complete :
    (size : ℕ) (s : Socket) (c : ℕ) (rest : Bytes)
    → drop size s.input ≡ c ∷ rest
    → ((store_file size s).file ≡ take size s.input)
      × ((store_file size s).returned ≡ (if c == newline then size else 0))
unfolding store_file
store_file_complete size s c rest e =
    let m = store_loop-Moves size size [] 0 s (omega arith) in
    let next = read_one (store_loop size size [] 0 s).socket c rest (m.rest ∙ e) in
    let enough : size < length s.input = omega (arith, length-drop size s.input, ap length e) in
    let count : length (store_loop size size [] 0 s).stored ≡ size =
      rw m.stored (omega (arith, length-take size s.input)) in
    (ground (arith, m.whole, m.stored, next), ground (arith, m.whole, m.stored, next, count))

-- When fewer bytes arrive than are announced, store_file returns 0 and leaves in the file those
-- that arrived, whatever pieces the socket hands over.
pub store_file_short :
    (size : ℕ) (s : Socket)
    → length s.input < size
    → ((store_file size s).file ≡ s.input) × ((store_file size s).returned ≡ 0)
unfolding store_file
store_file_short size s h =
    let m = store_loop-Moves size size [] 0 s (omega arith) in
    (
      ground (arith, m.whole, m.stored, take_all size s.input (omega arith)),
      ground (arith, m.whole),
    )

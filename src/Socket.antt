-- ===== src/Socket.antt =====
-- The bytes that a TCP client sends, and the functions of server/aux_functions.c that read them.
-- The kernel hands over at least one byte a call, and otherwise as many as it likes: `limits`
-- is its choice, one number a call, and a call with no choice left gets all that it asks for.
pub mod Transfers
pub mod Writing
pub mod Fields
pub mod Accepted
use auction_simulator.Prelude.{
  ℕ, zero, suc, ◌+◌, ◌-◌, Bool, true, false, not, List, [], ◌∷◌, ◌++◌, ltb, ◌==◌, length, take,
  drop, min, if◌then◌else◌,
}
use auction_simulator.Text.{Bytes, newline, blank}

pub record Socket : Type 0 where
  pub input : Bytes
  pub limits : List ℕ

abbrev pub granted : ℕ → List ℕ → ℕ
granted count [] = count
granted count (l ∷ ls) = min count (suc l)

abbrev pub later_limits : List ℕ → List ℕ
later_limits [] = []
later_limits (l ∷ ls) = ls

-- `read(fd, buffer, count)`: no bytes mean the end of the stream, or a time-out.
unfoldable pub read : ℕ → Socket → Bytes × Socket
read count s = (
  take (granted count s.limits) s.input,
  record { input = drop (granted count s.limits) s.input; limits = later_limits s.limits },
)

-- What `read_field` returns: the count of bytes read, up to a space; -1 at the end of a line; 0.
pub data FieldEnd : Type 0 where
  more : ℕ → FieldEnd
  last failed : FieldEnd

pub record Field : Type 0 where
  pub returned : FieldEnd
  pub buffer : Bytes
  pub socket : Socket

-- The loop, by the rounds left; the buffer is what earlier rounds have read.
unfoldable pub field_loop : ℕ → Bytes → Socket → Field
field_loop zero buffer s = record { returned = failed; buffer = buffer; socket = s }
field_loop (suc n) buffer s =
    let (got, s') = read 1 s in
    elim got [
      | [] ↦ record { returned = failed; buffer = buffer; socket = s' }
      | c ∷ _ ↦
          let rest = field_loop n (buffer ++ c ∷ []) s' in
          if length buffer == 0
          then (if c == blank
              then record { returned = failed; buffer = buffer ++ c ∷ []; socket = s' }
              else if c == newline
              then record { returned = last; buffer = buffer; socket = s' }
              else rest)
          else if c == blank
          then record { returned = more (length buffer + 1); buffer = buffer; socket = s' }
          else if c == newline
          then record { returned = last; buffer = buffer; socket = s' }
          else rest
    ]

-- `while (bytes_read <= size)` makes size + 1 rounds at most.
unfoldable pub read_field : ℕ → Socket → Field
unfolding field_loop
read_field size s = field_loop (size + 1) [] s

-- How the loop of `store_file` leaves: all bytes read or not, what is written to the file, and the
-- first byte of the buffer, which is that of the last chunk.
pub record Transfer : Type 0 where
  pub whole : Bool
  pub stored : Bytes
  pub first : ℕ
  pub socket : Socket

-- `left` is `size - bytes_read`. A round takes a byte at least, so `left` rounds are enough.
unfoldable pub store_loop : ℕ → ℕ → Bytes → ℕ → Socket → Transfer
unfolding read
store_loop zero left stored first s = record {
  whole = left == 0;
  stored = stored;
  first = first;
  socket = s;
}
store_loop (suc n) zero stored first s = record {
  whole = true;
  stored = stored;
  first = first;
  socket = s;
}
store_loop (suc n) (suc left) stored first s =
    let (got, s') = read (if ltb (suc left) 1024 then suc left else 1024) s in
    elim got [
      | [] ↦ record { whole = false; stored = stored; first = first; socket = s' }
      | c ∷ cs ↦ store_loop n (suc left - length (c ∷ cs)) (stored ++ c ∷ cs) c s'
    ]

pub record Stored : Type 0 where
  pub returned : ℕ
  pub file : Bytes
  pub socket : Socket

-- The byte that the last `read` leaves in the buffer: the old one at the end of the stream.
abbrev pub first_or : ℕ → Bytes → ℕ
first_or first [] = first
first_or first (c ∷ cs) = c

-- The returned number is 0 on failure, and the count of bytes on success. With size 0 it is 0 too,
-- whatever the buffer holds, so that its first byte may start as 0.
unfoldable pub store_file : ℕ → Socket → Stored
unfolding read store_loop
store_file size s =
    let t = store_loop size size [] 0 s in
    let (got, s') = read 1 t.socket in
    if not t.whole
    then record { returned = 0; file = t.stored; socket = t.socket }
    else if not (first_or t.first got == newline)
    then record { returned = 0; file = t.stored; socket = s' }
    else record { returned = length t.stored; file = t.stored; socket = s' }

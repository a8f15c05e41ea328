-- ===== src/Client/Requests/Laws.antt =====
-- The server reads from a request of the client, over TCP, the fields that the client has put in.
use mathlib.Core.Path.{ap₂}
use auction_simulator.Prelude.{
  ℕ, ◌≡◌, ◌≢◌, refl, ◌∙◌, ap, some, List, [], ◌∷◌, ◌++◌, arith, length, ◌≤◌, true,
}
use auction_simulator.Text.{Bytes, newline, blank, all, c_string}
use auction_simulator.Socket.{Socket, FieldEnd, more, last, failed, Field, read_field}
use auction_simulator.Socket.Fields.{closes, is_plain}
use auction_simulator.Socket.Accepted.{Admissible, read_field-space_iff, read_field-newline_iff}
use auction_simulator.Tcp.Fields.{inner, final, go_on, stop}

abbrev pub coming : Bytes → List ℕ → Socket
coming input limits = record { input = input; limits = limits }

go_on-closed :
    (e : FieldEnd) (f : Field)
    → closes e ≡ some blank
    → go_on e f ≡ some (c_string f.buffer, f.socket)
go_on-closed (more n) f h = refl
go_on-closed last f h = absurd (ground arith)
go_on-closed failed f h = absurd (cc h)

stop-closed :
    (e : FieldEnd) (f : Field) → closes e ≡ some newline → stop e f ≡ some (c_string f.buffer)
stop-closed (more n) f h = absurd (ground arith)
stop-closed last f h = refl
stop-closed failed f h = absurd (cc h)

-- A text without separators that fits a field, and is a string of C.
pub record Sendable (size : ℕ) (text : Bytes) : Type 0 where
  pub fits : length text ≤ size
  pub plain : all is_plain text ≡ true
  pub whole : c_string text ≡ text

admissible : {size : ℕ} {text : Bytes} → Sendable size text → Admissible size text
admissible a = record { fits = a.fits; plain = a.plain }

-- A field with a space behind it, and one at the end of the line.
pub inner_reads :
    (size : ℕ) (text rest : Bytes) (limits : List ℕ)
    → Sendable size text
    → text ≢ []
    → (later : List ℕ) × (inner size (coming (text ++ blank ∷ rest) limits)
        ≡ some (text, coming rest later))
unfolding inner
inner_reads size text rest limits a ne =
    let s = coming (text ++ blank ∷ rest) limits in
    let t = (read_field-space_iff size text rest s).1 (refl, admissible a, ne) in
    (
      (read_field size s).socket.limits,
      go_on-closed _ (read_field size s) t.closed
          ∙ ap₂ (λ b i. some (b, coming i (read_field size s).socket.limits))
              (ap c_string t.buffer ∙ a.whole) t.left,
    )

pub final_reads :
    (size : ℕ) (text : Bytes) (limits : List ℕ)
    → Sendable size text
    → final size (coming (text ++ newline ∷ []) limits) ≡ some text
unfolding final
final_reads size text limits a =
    let s = coming (text ++ newline ∷ []) limits in
    let t = (read_field-newline_iff size text [] s).1 (refl, admissible a) in
    stop-closed _ (read_field size s) t.closed ∙ ap some (ap c_string t.buffer ∙ a.whole)

-- The command in front of a request.
pub command_reads :
    (text rest : Bytes) (limits : List ℕ)
    → Sendable 4 text
    → text ≢ []
    → (later : List ℕ) × (c_string (read_field 4 (coming (text ++ blank ∷ rest) limits)).buffer
        ≡ text)
      × ((read_field 4 (coming (text ++ blank ∷ rest) limits)).socket ≡ coming rest later)
command_reads text rest limits a ne =
    let s = coming (text ++ blank ∷ rest) limits in
    let t = (read_field-space_iff 4 text rest s).1 (refl, admissible a, ne) in
    (
      (read_field 4 s).socket.limits,
      ap c_string t.buffer ∙ a.whole,
      ap (λ i. coming i (read_field 4 s).socket.limits) t.left,
    )

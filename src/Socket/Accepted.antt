-- ===== src/Socket/Accepted.antt =====
-- The fields that `read_field` of server/aux_functions.c accepts.
use mathlib.Core.Path.{ap₂}
use auction_simulator.Prelude.{
  ℕ, ◌+◌, ◌≤◌, ◌≡◌, ◌≢◌, ◌↔◌, refl, sym, ◌∙◌, inl, inr, true, some, [], ◌∷◌, ◌++◌, arith, length,
}
use auction_simulator.Text.{Bytes, newline, blank, all}
use auction_simulator.Socket.{Socket, read_field}
use auction_simulator.Socket.Fields.{is_plain, closes, loop_sound, loop_complete}

-- A field of at most `size` bytes, with no separator in it.
pub record Admissible (size : ℕ) (text : Bytes) : Type 0 where
  pub fits : length text ≤ size
  pub plain : all is_plain text ≡ true

-- The result of `read_field` at the end of a field that `close` ends.
pub record Takes (close size : ℕ) (text rest : Bytes) (s : Socket) : Type 0 where
  pub closed : closes (read_field size s).returned ≡ some close
  pub buffer : (read_field size s).buffer ≡ text
  pub left : (read_field size s).socket.input ≡ rest

-- read_field ends at a space with a text in its buffer exactly when the input is that text, a
-- space and the unread rest, and the text is not empty, no longer than the size and has no
-- separator in it, whatever pieces the kernel hands over.
pub read_field-space_iff :
    (size : ℕ) (text rest : Bytes) (s : Socket)
    → Takes blank size text rest s
      ↔ ((s.input ≡ text ++ blank ∷ rest) × Admissible size text × (text ≢ []))
unfolding read_field
read_field-space_iff size text rest s = (sound, complete)
  where
    sound :
        Takes blank size text rest s
        → (s.input ≡ text ++ blank ∷ rest) × Admissible size text × (text ≢ [])
    sound t =
        let h = loop_sound (size + 1) blank [] s.input s.limits t.closed in
        let same_text : h.text ≡ text = sym h.buffer ∙ t.buffer in
        let fit : length h.text ≤ size = omega (arith, h.size) in
        (
          h.shape ∙ ap₂ (λ t u. t ++ blank ∷ u) same_text t.left,
          record { fits = rw same_text at fit; plain = rw same_text at (h.plain) },
          rw t.buffer at (h.filled refl),
        )

    complete :
        (s.input ≡ text ++ blank ∷ rest) × Admissible size text × (text ≢ [])
        → Takes blank size text rest s
    complete (shape, f, ne) =
        let r =
          loop_complete (size + 1) blank text [] rest s.limits (inl refl) (omega (arith, f.fits))
            f.plain (λ _. ne) in
        rw shape (record { closed = r.closed; buffer = r.buffer; left = r.left })

-- read_field ends at a line end with a text in its buffer exactly when the input is that text, a
-- line end and the unread rest, and the text is no longer than the size and has no separator in
-- it; the empty text is accepted.
pub read_field-newline_iff :
    (size : ℕ) (text rest : Bytes) (s : Socket)
    → Takes newline size text rest s ↔ ((s.input ≡ text ++ newline ∷ rest) × Admissible size text)
unfolding read_field
read_field-newline_iff size text rest s = (sound, complete)
  where
    sound :
        Takes newline size text rest s → (s.input ≡ text ++ newline ∷ rest) × Admissible size text
    sound t =
        let h = loop_sound (size + 1) newline [] s.input s.limits t.closed in
        let same_text : h.text ≡ text = sym h.buffer ∙ t.buffer in
        let fit : length h.text ≤ size = omega (arith, h.size) in
        (
          h.shape ∙ ap₂ (λ t u. t ++ newline ∷ u) same_text t.left,
          record { fits = rw same_text at fit; plain = rw same_text at (h.plain) },
        )

    complete :
        (s.input ≡ text ++ newline ∷ rest) × Admissible size text → Takes newline size text rest s
    complete (shape, f) =
        let r =
          loop_complete (size + 1) newline text [] rest s.limits (inr refl) (omega (arith, f.fits))
            f.plain (λ h. absurd (omega arith)) in
        rw shape (record { closed = r.closed; buffer = r.buffer; left = r.left })

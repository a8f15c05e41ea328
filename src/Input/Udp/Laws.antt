-- ===== src/Input/Udp/Laws.antt =====
-- Which datagrams the readers of server/input_funcs.c accept, and what they take from them.
use auction_simulator.Prelude.{
  ℕ, zero, suc, ◌+◌, ◌≡◌, true, inl, inr, Option-cases, some, [], ◌∷◌, ◌++◌, Bool, arith, length,
  drop, length-append, length-drop,
}
use auction_simulator.Text.{Bytes, all, blank, newline, is_digit, is_alnum}
use auction_simulator.Input.Udp.{read_chars, read_uid_udp, read_password_udp}
use auction_simulator.Input.Verify.{verify_uid, verify_password}

module _ (test : ℕ → Bool) (close : ℕ) where
  -- What `read_chars` accepts: `n` bytes that pass the test, and the closing one.
  read_chars_sound :
      (n : ℕ) (s : Bytes) {t : Bytes}
      → read_chars test close n s ≡ some t
      → (length t ≡ n) × (all test t ≡ true) × ((rest : Bytes) × (s ≡ t ++ close ∷ rest))
  unfolding read_chars all
  read_chars_sound n [] e = cc
  read_chars_sound zero (c ∷ s) {t} e = (ground arith, ground arith, (s, ground arith))
  read_chars_sound (suc n) (c ∷ s) {t} e = elim (Option-cases (read_chars test close n s)) [
    | inl none_left ↦ absurd (ground arith)
    | inr (t', found) ↦
        let (size, passed, (rest, shape)) = read_chars_sound n s found in
        (ground arith, ground arith, (rest, ground arith))
  ]

  read_chars_complete :
      (t rest : Bytes)
      → all test t ≡ true
      → read_chars test close (length t) (t ++ close ∷ rest) ≡ some t
  unfolding read_chars all
  read_chars_complete [] rest h = ground arith
  read_chars_complete (c ∷ t) rest h = ground (arith, read_chars_complete t rest)

-- A uid is read exactly when a uid and a space stand behind the command.
pub read_uid_udp_sound :
    (buffer : Bytes) {uid : Bytes}
    → read_uid_udp buffer ≡ some uid
    → (verify_uid uid ≡ true) × ((rest : Bytes) × (drop 4 buffer ≡ uid ++ blank ∷ rest))
unfolding read_uid_udp verify_uid
read_uid_udp_sound buffer e =
    let (size, passed, shape) = read_chars_sound is_digit blank 6 (drop 4 buffer) (ground arith) in
    (ground arith, shape)

pub read_uid_udp_complete :
    (buffer uid rest : Bytes)
    → verify_uid uid ≡ true
    → drop 4 buffer ≡ uid ++ blank ∷ rest
    → read_uid_udp buffer ≡ some uid
unfolding read_uid_udp verify_uid
read_uid_udp_complete buffer uid rest h e =
    let size : length uid ≡ 6 = ground arith in
    let full : length (drop 4 buffer) ≡ 7 + length rest =
      rw e (omega (arith, length-append uid (blank ∷ rest))) in
    let found : read_chars is_digit blank (length uid) (uid ++ blank ∷ rest) ≡ some uid =
      read_chars_complete is_digit blank uid rest (ground arith) in
    ground (arith, length-drop 4 buffer)

pub read_password_udp_sound :
    (buffer : Bytes) {password : Bytes}
    → read_password_udp buffer ≡ some password
    → (verify_password password ≡ true)
      × ((rest : Bytes) × (drop 11 buffer ≡ password ++ newline ∷ rest))
unfolding read_password_udp verify_password
read_password_udp_sound buffer e =
    let (size, passed, shape) =
      read_chars_sound is_alnum newline 8 (drop 11 buffer) (ground arith) in
    (ground arith, shape)

pub read_password_udp_complete :
    (buffer password rest : Bytes)
    → verify_password password ≡ true
    → drop 11 buffer ≡ password ++ newline ∷ rest
    → read_password_udp buffer ≡ some password
unfolding read_password_udp verify_password
read_password_udp_complete buffer password rest h e =
    let size : length password ≡ 8 = ground arith in
    let full : length (drop 11 buffer) ≡ 9 + length rest =
      rw e (omega (arith, length-append password (newline ∷ rest))) in
    let found : read_chars is_alnum newline (length password) (password ++ newline ∷ rest)
        ≡ some password =
      read_chars_complete is_alnum newline password rest (ground arith) in
    ground (arith, length-drop 11 buffer)

-- ===== src/Udp/Session/Credentials.antt =====
-- Which datagrams of `handle_login`, `handle_logout` and `handle_unregister` have valid fields.
use mathlib.Core.Path.{subst}
use auction_simulator.Prelude.{
  ◌≡◌, ◌↔◌, refl, sym, ◌∙◌, ap, true, some, [], ◌∷◌, ◌++◌, append_assoc, arith, length, drop,
  length-append, drop-append,
}
use auction_simulator.Text.{Bytes, blank, newline}
use auction_simulator.Input.Udp.{read_uid_udp, read_password_udp}
use auction_simulator.Input.Udp.Laws.{
  read_uid_udp_sound, read_uid_udp_complete, read_password_udp_sound, read_password_udp_complete,
}
use auction_simulator.Input.Verify.{verify_uid, verify_password}
use auction_simulator.Udp.Session.{credentials}

-- A uid, a password and what follows them, from the fifth byte on.
abbrev pub LoginLine : Bytes → Bytes → Bytes → Bytes → Type 0
LoginLine buffer uid password rest = drop 4 buffer ≡ uid ++ blank ∷ (password ++ newline ∷ rest)

drop_eleven : (s : Bytes) → drop 11 s ≡ drop 7 (drop 4 s)
drop_eleven [] = refl
drop_eleven (a ∷ []) = refl
drop_eleven (a ∷ b ∷ []) = refl
drop_eleven (a ∷ b ∷ c ∷ []) = refl
drop_eleven (a ∷ b ∷ c ∷ d ∷ s) = refl

drop_seven : (uid s : Bytes) → verify_uid uid ≡ true → drop 7 (uid ++ blank ∷ s) ≡ s
unfolding verify_uid
drop_seven uid s h =
    let size : length (uid ++ blank ∷ []) ≡ 7 = ground (arith, length-append uid (blank ∷ [])) in
    subst (λ n. drop n (uid ++ blank ∷ s) ≡ s) size
      (subst (λ xs. drop (length (uid ++ blank ∷ [])) xs ≡ s) (append_assoc uid (blank ∷ []) s)
        (drop-append (uid ++ blank ∷ []) s))

both-eq-some :
    (buffer uid password : Bytes)
    → credentials buffer ≡ some (uid, password)
    → (read_uid_udp buffer ≡ some uid) × (read_password_udp buffer ≡ some password)
unfolding credentials
both-eq-some buffer uid password e = ground arith

-- The two fields of a datagram of login, logout or unregister are accepted, as a uid and a
-- password, exactly when they pass verify_uid and verify_password and stand behind four bytes
-- with a space between them and a line end behind them.
pub credentials_iff :
    (buffer uid password : Bytes)
    → (credentials buffer ≡ some (uid, password)) ↔ (
        (verify_uid uid ≡ true)
        × (verify_password password ≡ true)
        × ((rest : Bytes) × LoginLine buffer uid password rest))
credentials_iff buffer uid password = (accepted, found)
  where
    accepted :
        credentials buffer ≡ some (uid, password)
        → (verify_uid uid ≡ true)
          × (verify_password password ≡ true)
          × ((rest : Bytes) × LoginLine buffer uid password rest)
    accepted e =
        let (e1, e2) = both-eq-some buffer uid password e in
        let (hu, (s1, shape1)) = read_uid_udp_sound buffer e1 in
        let (hp, (s2, shape2)) = read_password_udp_sound buffer e2 in
        let tail : s1 ≡ password ++ newline ∷ s2 =
          sym (drop_seven uid s1 hu)
          ∙ ap (drop 7) (sym shape1)
          ∙ sym (drop_eleven buffer)
          ∙ shape2 in
        (hu, hp, (s2, shape1 ∙ ap (λ s. uid ++ blank ∷ s) tail))

    found :
        (verify_uid uid ≡ true)
          × (verify_password password ≡ true)
          × ((rest : Bytes) × LoginLine buffer uid password rest)
        → credentials buffer ≡ some (uid, password)
    found (hu, hp, (rest, shape)) =
        let e1 = read_uid_udp_complete buffer uid (password ++ newline ∷ rest) hu shape in
        let shape2 : drop 11 buffer ≡ password ++ newline ∷ rest =
          drop_eleven buffer ∙ ap (drop 7) shape ∙ drop_seven uid (password ++ newline ∷ rest) hu in
        let e2 = read_password_udp_complete buffer password rest hp shape2 in
        unfold credentials in rw (e1, e2)

-- ===== src/Socket/Writing.antt =====
-- `write_tcp` of server/aux_functions.c and of client/aux_functions.c.
use auction_simulator.Prelude.{
  ℕ, zero, suc, ◌+◌, ◌-◌, ◌%◌, ◌^◌, ◌≤◌, ◌≡◌, refl, sym, ◌∙◌, ap, inl, inr, Bool-cases, Option,
  none, some, List, [], ◌∷◌, ◌++◌, append_assoc, append-nil, arith, ltb, length, take, drop,
  take-append-drop, drop_nil, min, All, if◌then◌else◌,
}
use auction_simulator.Text.{Bytes}

-- The outcome of a `write`: one byte more than the number, or all that is left if that is less; or -1.
abbrev pub Outcome : Type 0
Outcome = Option ℕ

-- The loop, with what has been sent. `n` is a `size_t`, so that -1 wraps around. A call with no outcome
-- left sends all that there is.
unfoldable pub write_loop : List Outcome → Bytes → ℕ → Bytes → Bytes
write_loop [] status n sent = if ltb n (length status) then sent ++ drop n status else sent
write_loop (none ∷ outcomes) status n sent =
    let rest = write_loop outcomes status ((n + (2 ^ 64 - 1)) % 2 ^ 64) sent in
    if ltb n (length status) then rest else sent
write_loop (some l ∷ outcomes) status n sent =
    let count = min (length status - n) (suc l) in
    let rest = write_loop outcomes status (n + count) (sent ++ take count (drop n status)) in
    if ltb n (length status) then rest else sent

unfoldable pub write_tcp : List Outcome → Bytes → Bytes
unfolding write_loop
write_tcp outcomes status = write_loop outcomes status 0 []

abbrev pub Succeeds : Outcome → Type 0
Succeeds none = ⊥
Succeeds (some l) = Unit

drop_past : (n : ℕ) (xs : Bytes) → length xs ≤ n → drop n xs ≡ []
drop_past zero [] h = refl
drop_past (suc n) [] h = refl
drop_past zero (x ∷ xs) h = absurd (omega arith)
drop_past (suc n) (x ∷ xs) h = drop_past n xs (omega arith)

drop_more : (n count : ℕ) (xs : Bytes) → drop (n + count) xs ≡ drop count (drop n xs)
drop_more zero count xs = let e : 0 + count ≡ count = omega arith in rw e refl
drop_more (suc n) count [] =
    let e : suc n + count ≡ suc (n + count) = omega arith in rw (e, drop_nil count) refl
drop_more (suc n) count (x ∷ xs) =
    let e : suc n + count ≡ suc (n + count) = omega arith in rw e (drop_more n count xs)

-- A part of the rest, and what is left behind it.
part_sent :
    (n count : ℕ) (xs sent : Bytes)
    → (sent ++ take count (drop n xs)) ++ drop (n + count) xs ≡ sent ++ drop n xs
part_sent n count xs sent =
    append_assoc sent (take count (drop n xs)) (drop (n + count) xs)
    ∙ ap (λ t. sent ++ (take count (drop n xs) ++ t)) (drop_more n count xs)
    ∙ ap (λ t. sent ++ t) (take-append-drop count (drop n xs))

write_loop-whole :
    (outcomes : List Outcome) (status : Bytes) (n : ℕ) (sent : Bytes)
    → All Succeeds outcomes
    → write_loop outcomes status n sent ≡ sent ++ drop n status
unfolding write_loop
write_loop-whole [] status n sent h = elim (Bool-cases (ltb n (length status))) [
  | inl more ↦ rw more refl
  | inr done ↦ rw (done, drop_past n status (ground arith)) (sym (append-nil sent))
]
write_loop-whole (none ∷ outcomes) status n sent (h, hs) = absurd h
write_loop-whole (some l ∷ outcomes) status n sent (h, hs) =
    elim (Bool-cases (ltb n (length status))) [
      | inl more ↦ rw more (
          write_loop-whole outcomes status _ _ hs
          ∙ part_sent n (min (length status - n) (suc l)) status sent)
      | inr done ↦ rw (done, drop_past n status (ground arith)) (sym (append-nil sent))
    ]

-- When no `write` fails, the text is sent whole and in order, whatever parts the kernel takes.
pub write_tcp_whole :
    (outcomes : List Outcome) (status : Bytes)
    → All Succeeds outcomes
    → write_tcp outcomes status ≡ status
unfolding write_tcp
write_tcp_whole outcomes status h = write_loop-whole outcomes status 0 [] h

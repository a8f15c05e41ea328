-- ===== src/Server/Locks/Laws.antt =====
-- Mutual exclusion of the processes that serve connections, and that they do not block each other for
-- ever.
use auction_simulator.Prelude.{
  ℕ, zero, suc, ◌+◌, ◌≤◌, ◌<◌, ◌≡◌, refl, Bool, true, false, inl, inr, Bool-cases, List, [], ◌∷◌,
  ◌++◌, arith, ◌==◌,
}
use auction_simulator.Server.Locks.{
  Child, before, between, serving, unlocking, finished, holds_auctions, holds_users, is_serving,
  unfinished, count, advance, change_at, dead, Event, forked, goes_on, ends, happen, happen_all,
}

-- No lock is held twice.
pub record Exclusive (s : List Child) : Type 0 where
  pub auctions : count holds_auctions s ≤ 1
  pub users : count holds_users s ≤ 1

abbrev one_if : Bool → ℕ
one_if true = 1
one_if false = 0

-- A change that gives the lock to at most `more` processes.
module _ (test : Child → Bool) (f : Child → Child) (more : ℕ)
    (small : (c : Child) → one_if (test (f c)) ≤ one_if (test c) + more) where
  count-change_at : (i : ℕ) (s : List Child) → count test (change_at f i s) ≤ count test s + more
  unfolding count change_at
  count-change_at i [] = omega arith
  count-change_at zero (c ∷ cs) = ground (arith, small c)
  count-change_at (suc i) (c ∷ cs) = ground (arith, count-change_at i cs)

count-fork :
    (test : Child → Bool) (s : List Child)
    → test before ≡ false
    → count test (s ++ before ∷ []) ≡ count test s
unfolding count
count-fork test [] e = ground arith
count-fork test (c ∷ cs) e = ground (arith, count-fork test cs e)

module _ (a u : ℕ) where
  auctions_taken :
      (c : Child)
      → one_if (holds_auctions (advance a u c)) ≤ one_if (holds_auctions c) + one_if (a == 0)
  unfolding advance
  auctions_taken before = ground arith
  auctions_taken between = ground arith
  auctions_taken serving = omega arith
  auctions_taken unlocking = omega arith
  auctions_taken finished = omega arith

  users_taken :
      (c : Child) → one_if (holds_users (advance a u c)) ≤ one_if (holds_users c) + one_if (u == 0)
  unfolding advance
  users_taken before = ground arith
  users_taken between = ground arith
  users_taken serving = omega arith
  users_taken unlocking = omega arith
  users_taken finished = omega arith

happen-Exclusive : (e : Event) (s : List Child) → Exclusive s → Exclusive (happen e s)
unfolding happen
happen-Exclusive forked s h = record {
  auctions = rw (count-fork holds_auctions s refl) (h.auctions);
  users = rw (count-fork holds_users s refl) (h.users);
}
happen-Exclusive (goes_on i) s h =
    let a = count holds_auctions s in
    let u = count holds_users s in
    record {
      auctions = ground (
        arith,
        count-change_at holds_auctions (advance a u) (one_if (a == 0)) (auctions_taken a u) i s,
        h.auctions,
      );
      users = ground (
        arith,
        count-change_at holds_users (advance a u) (one_if (u == 0)) (users_taken a u) i s,
        h.users,
      );
    }
happen-Exclusive (ends i) s h = record {
  auctions =
      omega (arith, count-change_at holds_auctions dead 0 (λ c. omega arith) i s, h.auctions);
  users = omega (arith, count-change_at holds_users dead 0 (λ c. omega arith) i s, h.users);
}

happen_all-Exclusive :
    (es : List Event) (s : List Child) → Exclusive s → Exclusive (happen_all es s)
unfolding happen_all
happen_all-Exclusive [] s h = h
happen_all-Exclusive (e ∷ es) s h = happen_all-Exclusive es (happen e s) (happen-Exclusive e s h)

serving-le : (s : List Child) → count is_serving s ≤ count holds_users s
unfolding count
serving-le [] = omega arith
serving-le (before ∷ cs) = serving-le cs
serving-le (between ∷ cs) = serving-le cs
serving-le (serving ∷ cs) = omega (arith, serving-le cs)
serving-le (unlocking ∷ cs) = omega (arith, serving-le cs)
serving-le (finished ∷ cs) = serving-le cs

none_yet : Exclusive []
unfolding count
none_yet = record { auctions = omega arith; users = omega arith }

-- Whatever connections are accepted, and in whatever order their processes go on or end, at most
-- one process serves a request at a time.
pub serving-exclusive : (es : List Event) → count is_serving (happen_all es []) ≤ 1
serving-exclusive es =
    omega (arith, serving-le (happen_all es []), (happen_all-Exclusive es [] none_yet).users)

-- The calls that a process has left.
abbrev pub weight : Child → ℕ
weight before = 4
weight between = 3
weight serving = 2
weight unlocking = 1
weight finished = 0

unfoldable pub total : List Child → ℕ
total [] = 0
total (c ∷ cs) = weight c + total cs

module _ (test : Child → Bool) (f : Child → Child)
    (less : (c : Child) → test c ≡ true → weight (f c) < weight c) where
  one_changes : (s : List Child) → 0 < count test s → (i : ℕ) × (total (change_at f i s) < total s)
  unfolding count change_at total
  one_changes [] h = absurd (omega arith)
  one_changes (c ∷ cs) h = elim (Bool-cases (test c)) [
    | inl e ↦ (zero, omega (arith, less c e))
    | inr e ↦ let (i, k) = one_changes cs (ground arith) in (suc i, omega (arith, k))
  ]

module _ (a u : ℕ) where
  users_go : (c : Child) → holds_users c ≡ true → weight (advance a u c) < weight c
  unfolding advance
  users_go before e = cc
  users_go between e = cc
  users_go serving e = omega arith
  users_go unlocking e = omega arith
  users_go finished e = cc

  auctions_go :
      (u == 0) ≡ true → (c : Child) → holds_auctions c ≡ true → weight (advance a u c) < weight c
  unfolding advance
  auctions_go z before e = cc
  auctions_go z between e = ground arith
  auctions_go z serving e = omega arith
  auctions_go z unlocking e = cc
  auctions_go z finished e = cc

  all_go :
      (u == 0) ≡ true
      → (a == 0) ≡ true
      → (c : Child) → unfinished c ≡ true
      → weight (advance a u c) < weight c
  unfolding advance
  all_go z y before e = ground arith
  all_go z y between e = ground arith
  all_go z y serving e = omega arith
  all_go z y unlocking e = omega arith
  all_go z y finished e = cc

-- In every state in which some process of a connection is unfinished, one of them can go on, and
-- the number of calls that are left gets smaller: the processes never all wait for each other.
pub goes_on-progress :
    (s : List Child) → 0 < count unfinished s → (i : ℕ) × (total (happen (goes_on i) s) < total s)
unfolding happen
goes_on-progress s h =
    let a = count holds_auctions s in
    let u = count holds_users s in
    elim (Bool-cases (u == 0)) [
      | inr some_users ↦ one_changes holds_users (advance a u) (users_go a u) s (ground arith)
      | inl no_users ↦ elim (Bool-cases (a == 0)) [
        | inr some_auctions ↦
            one_changes holds_auctions (advance a u) (auctions_go a u no_users) s (ground arith)
        | inl no_auctions ↦
            one_changes unfinished (advance a u) (all_go a u no_users no_auctions) s h
      ]
    ]

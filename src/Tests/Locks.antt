-- ===== src/Tests/Locks.antt =====
-- The theorems on the locks, at two processes.
use auction_simulator.Prelude.{ℕ, ◌≤◌, ◌<◌, [], ◌∷◌, arith, List}
use auction_simulator.Server.Locks.{
  Child, before, between, is_serving, unfinished, count, Event, forked, goes_on, ends, happen,
  happen_all,
}
use auction_simulator.Server.Locks.Laws.{serving-exclusive, total, goes_on-progress}

-- The second process waits until the first one ends.
abbrev events : List Event
events =
    forked
    ∷ forked
    ∷ goes_on 0
    ∷ goes_on 1
    ∷ goes_on 0
    ∷ goes_on 1
    ∷ ends 0
    ∷ goes_on 1
    ∷ goes_on 1
    ∷ []

serving-exclusive_example : count is_serving (happen_all events []) ≤ 1
serving-exclusive_example = serving-exclusive events

abbrev children : List Child
children = before ∷ between ∷ []

some_left : 0 < count unfinished children
unfolding count
some_left = omega arith

goes_on-progress_example : (i : ℕ) × (total (happen (goes_on i) children) < total children)
goes_on-progress_example = goes_on-progress children some_left

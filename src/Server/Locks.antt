-- ===== src/Server/Locks.antt =====
-- The processes that `main` of server/server.c forks, one for each connection, and their two locks:
-- `lock_dir` and `unlock_dir` of server/aux_functions.c. `flock` with `LOCK_EX` blocks while another
-- process has the lock, and the kernel takes the locks of a process that ends.
pub mod Laws
use auction_simulator.Prelude.{
  ℕ, zero, suc, ◌+◌, Bool, true, false, List, [], ◌∷◌, ◌++◌, ◌==◌, if◌then◌else◌,
}

-- Where a process stands: before the lock of server/auctions, between the two locks, serving its
-- request with both, between the two unlocks, and at its end.
pub data Child : Type 0 where
  before between serving unlocking finished : Child

abbrev pub holds_auctions : Child → Bool
holds_auctions before = false
holds_auctions between = true
holds_auctions serving = true
holds_auctions unlocking = false
holds_auctions finished = false

abbrev pub holds_users : Child → Bool
holds_users before = false
holds_users between = false
holds_users serving = true
holds_users unlocking = true
holds_users finished = false

abbrev pub is_serving : Child → Bool
is_serving before = false
is_serving between = false
is_serving serving = true
is_serving unlocking = false
is_serving finished = false

abbrev pub unfinished : Child → Bool
unfinished before = true
unfinished between = true
unfinished serving = true
unfinished unlocking = true
unfinished finished = false

unfoldable pub count : (Child → Bool) → List Child → ℕ
count test [] = 0
count test (c ∷ cs) = let rest = count test cs in if test c then rest + 1 else rest

-- The next call of a process, by how many hold each lock; it waits while the lock is held.
unfoldable pub advance : ℕ → ℕ → Child → Child
advance auctions users before = if auctions == 0 then between else before
advance auctions users between = if users == 0 then serving else between
advance auctions users serving = unlocking
advance auctions users unlocking = finished
advance auctions users finished = finished

unfoldable pub change_at : (Child → Child) → ℕ → List Child → List Child
change_at f i [] = []
change_at f zero (c ∷ cs) = f c ∷ cs
change_at f (suc i) (c ∷ cs) = c ∷ change_at f i cs

abbrev pub dead : Child → Child
dead c = finished

-- A connection is accepted, a process goes on, or a process ends where it stands.
pub data Event : Type 0 where
  forked : Event
  goes_on ends : ℕ → Event

unfoldable pub happen : Event → List Child → List Child
unfolding count advance change_at
happen forked s = s ++ before ∷ []
happen (goes_on i) s = change_at (advance (count holds_auctions s) (count holds_users s)) i s
happen (ends i) s = change_at dead i s

unfoldable pub happen_all : List Event → List Child → List Child
unfolding happen
happen_all [] s = s
happen_all (e ∷ es) s = happen_all es (happen e s)

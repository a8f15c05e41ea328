-- ===== src/Udp/Session/Accounts.antt =====
-- The accounts behind `server/users`, and the three requests that change them as transitions.

use auction_simulator.Prelude.{
  ◌≡◌, ◌⊎◌, refl, Bool, true, false, Option, none, some, List, [], arith, inl, inr, Option-cases,
  if◌then◌else◌,
}
use auction_simulator.Text.{Bytes, codes, same, same_iff}
use auction_simulator.World.{World, UserDir}
use auction_simulator.World.Dir.{find, find-put, Values, Values-put}
use auction_simulator.World.Monad.{M}
use auction_simulator.Users.{set_user}
use auction_simulator.Users.Laws.{IsUser}
use auction_simulator.Udp.Session.{login, logout, unregister}

pub data Account : Type 0 where
  absent : Account
  known : Bytes → Bool → Account

abbrev pub account_in : Option UserDir → Account
account_in none = absent
account_in (some u) = elim u.pass [ none ↦ absent | some t ↦ known t u.login ]

abbrev pub account : Bytes → World → Account
account uid w = account_in (find uid w.users)

pub data Request : Type 0 where
  log_in log_out sign_off : Bytes → Request

abbrev pub perform : Bytes → Request → M Bytes
perform uid (log_in password) = login uid password
perform uid (log_out password) = logout uid password
perform uid (sign_off password) = unregister uid password

abbrev pub password_of : Request → Bytes
password_of (log_in password) = password
password_of (log_out password) = password
password_of (sign_off password) = password

-- The specification: the new account and the reply.
unfoldable pub transition : Request → Account → Account × Bytes
transition (log_in password) absent = (known password true, codes "RLI REG\n")
transition (log_in password) (known q true) = (known q true, codes "RLI NOK\n")
transition (log_in password) (known q false) =
    if same q password then (known q true, codes "RLI OK\n") else (known q false, codes "RLI NOK\n")
transition (log_out password) absent = (absent, codes "RLO UNR\n")
transition (log_out password) (known q false) = (known q false, codes "RLO NOK\n")
transition (log_out password) (known q true) =
    if same q password then (known q false, codes "RLO OK\n") else (known q true, codes "RLO NOK\n")
transition (sign_off password) absent = (absent, codes "RUR NOK\n")
transition (sign_off password) (known q false) = (known q false, codes "RUR NOK\n")
transition (sign_off password) (known q true) =
    if same q password then (absent, codes "RUR OK\n") else (known q true, codes "RUR NOK\n")

abbrev hosted_in : Option UserDir → List Bytes
hosted_in none = []
hosted_in (some u) = u.hosted

-- The names of the auctions that a user hosts, which stay when the user unregisters.
abbrev pub hosted : Bytes → World → List Bytes
hosted uid w = hosted_in (find uid w.users)

-- What a request of `uid` leaves: the account by the transition, the others and the lists of auctions
-- as they were.
pub record Follows (uid : Bytes) (r : Request) (w : World) (reply : Bytes) (w' : World)
    : Type 0 where
  pub replied : reply ≡ (transition r (account uid w)).1
  pub moved :
      (other : Bytes)
      → account other w'
        ≡ (if same uid other then (transition r (account uid w)).0 else account other w)
  pub kept : (other : Bytes) → hosted other w' ≡ hosted other w
  pub auctions : w'.auctions ≡ w.auctions
  pub clock : w'.now ≡ w.now
  pub sound : Values IsUser w'.users

pub Account-cases :
    (o : Option UserDir)
    → (account_in o ≡ absent) ⊎ ((u : UserDir) × (t : Bytes) × (o ≡ some u) × (u.pass ≡ some t))
Account-cases none = inl refl
Account-cases (some u) = elim (Option-cases u.pass) [
  | inl e ↦ inl (ground arith)
  | inr (t, e) ↦ inr (u, t, refl, e)
]

module _ (uid : Bytes) (r : Request) (w : World) (sound : Values IsUser w.users) where
  pub stay-Follows :
      (reply : Bytes)
      → transition r (account uid w) ≡ (account uid w, reply)
      → Follows uid r w reply w
  stay-Follows reply e = record {
    replied = ground arith;
    moved = λ other. ground (arith, same_iff uid other);
    kept = λ other. refl;
    auctions = refl;
    clock = refl;
    sound = sound;
  }

  pub set-Follows :
      (reply : Bytes) (u : UserDir)
      → transition r (account uid w) ≡ (account_in (some u), reply)
      → u.hosted ≡ hosted uid w
      → IsUser u
      → Follows uid r w reply (set_user uid u w)
  set-Follows reply u e hosts ok = record {
    replied = ground arith;
    moved = λ other. rw find-put (ground (arith, same_iff uid other));
    kept = λ other. rw find-put (ground (arith, same_iff uid other));
    auctions = refl;
    clock = refl;
    sound = Values-put IsUser uid u w.users ok sound;
  }

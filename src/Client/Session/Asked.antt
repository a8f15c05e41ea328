-- ===== src/Client/Session/Asked.antt =====
-- A request of a session, and what the client takes from the reply.
use auction_simulator.Prelude.{
  ◌≡◌, refl, ◌∙◌, ap, Bool, true, false, inl, inr, Bool-cases, if◌then◌else◌,
}
use auction_simulator.Text.{Bytes, same}
use auction_simulator.World.{World}
use auction_simulator.World.Dir.{Values}
use auction_simulator.World.Monad.{M, ◌>>=◌, pure}
use auction_simulator.World.Ends.{Ends, Ends-bind}
use auction_simulator.World.Platform.{Platform}
use auction_simulator.Users.Laws.{IsUser}
use auction_simulator.Udp.Session.Accounts.{
  account, Account, absent, known, Request, log_in, log_out, sign_off, password_of, transition,
  Follows,
}
use auction_simulator.Client.Buffer.{starts, verify_buffer}
use auction_simulator.Client.Network.{connect_udp}
use auction_simulator.Client.Answers.{login_answer, logout_answer, unregister_answer}
use auction_simulator.Client.Session.{valid_login}
use auction_simulator.Client.Session.Exchange.{datagram, connect-Follows}

-- Whether the server carries a request out.
abbrev pub agreed : Request → Account → Bool
agreed (log_in password) absent = true
agreed (log_in password) (known q on) = if on then false else same q password
agreed (log_out password) absent = false
agreed (log_out password) (known q on) = if on then same q password else false
agreed (sign_off password) absent = false
agreed (sign_off password) (known q on) = if on then same q password else false

abbrev pub answer : Request → Bytes → Bool × Bytes
answer (log_in password) = login_answer
answer (log_out password) = logout_answer
answer (sign_off password) = unregister_answer

-- The client reads from the reply whether it was carried out.
answer-transition : (r : Request) (a : Account) → (answer r (transition r a).1).0 ≡ agreed r a
unfolding transition login_answer logout_answer unregister_answer verify_buffer starts same
answer-transition (log_in password) absent = refl
answer-transition (log_in password) (known q true) = refl
answer-transition (log_in password) (known q false) = elim (Bool-cases (same q password)) [
  | inl e ↦ rw e refl
  | inr e ↦ rw e refl
]
answer-transition (log_out password) absent = refl
answer-transition (log_out password) (known q false) = refl
answer-transition (log_out password) (known q true) = elim (Bool-cases (same q password)) [
  | inl e ↦ rw e refl
  | inr e ↦ rw e refl
]
answer-transition (sign_off password) absent = refl
answer-transition (sign_off password) (known q false) = refl
answer-transition (sign_off password) (known q true) = elim (Bool-cases (same q password)) [
  | inl e ↦ rw e refl
  | inr e ↦ rw e refl
]

module _ ⦃p : Platform⦄ where
  abbrev pub ask : Bytes → Request → M (Bool × Bytes)
  ask uid r = connect_udp 128 (datagram uid r) >>= λ buffer. pure (answer r buffer)

  -- What a request of `uid` leaves, and whether the client takes it as done.
  pub record Asked (uid : Bytes) (r : Request) (w : World) (got : Bool × Bytes) (w' : World)
      : Type 0 where
    pub done : got.0 ≡ agreed r (account uid w)
    pub moved :
        (other : Bytes)
        → account other w'
          ≡ (if same uid other then (transition r (account uid w)).0 else account other w)
    pub sound : Values IsUser w'.users

  pub ask-Asked :
      (uid : Bytes) (r : Request) (w : World)
      → Values IsUser w.users
      → valid_login uid (password_of r) ≡ true
      → Ends (ask uid r w) (Asked uid r w)
  ask-Asked uid r w sound h =
      Ends-bind (connect_udp 128 (datagram uid r) w) _ (Follows uid r w) (Asked uid r w)
        (connect-Follows uid r w sound h)
        (λ reply w' f. record {
          done = ap (λ t. (answer r t).0) f.replied ∙ answer-transition r (account uid w);
          moved = f.moved;
          sound = f.sound;
        })

-- ===== src/Client/Main/Safe.antt =====
-- What holds of every outcome of an action that is defined, and of the commands of a session.
use auction_simulator.Prelude.{◌≡◌, refl, Bool, true, false, not, Option, none, some, if◌then◌else◌}
use auction_simulator.Text.{Bytes}
use auction_simulator.World.{World}
use auction_simulator.World.Monad.{M, ◌>>=◌, pure, crash}
use auction_simulator.World.Platform.{Platform}
use auction_simulator.Client.Network.{defined}
use auction_simulator.Client.Session.{
  Session, no_session, scan_login, valid_login, login, logout, unregister, login_command,
  logout_command, unregister_command,
}
use auction_simulator.Client.Asset.{show_asset}
use auction_simulator.Client.Connection.{Link}
use auction_simulator.Client.Main.{Client, Round, again, stopped, asset_command}

-- What holds of every outcome that is defined.
abbrev pub Safe : {A : Type 0} → Option (A × World) → (A → World → Type 0) → Type 0
Safe none Q = Unit
Safe (some (a, w)) Q = Q a w

module _ {A B : Type 0} where
  pub Safe-bind :
      (r : Option (A × World)) (f : A → M B) (P : A → World → Type 0) (Q : B → World → Type 0)
      → Safe r P
      → ((a : A) (w : World) → P a w → Safe (f a w) Q)
      → Safe (elim r [ none ↦ none | some (a, w) ↦ f a w ]) Q
  Safe-bind none f P Q h k = tt
  Safe-bind (some (a, w)) f P Q h k = k a w h

  pub Safe-next :
      (r : Option (A × World)) (f : A → M B) (Q : B → World → Type 0)
      → ((a : A) (w : World) → Safe (f a w) Q)
      → Safe (elim r [ none ↦ none | some (a, w) ↦ f a w ]) Q
  Safe-next none f Q k = tt
  Safe-next (some (a, w)) f Q k = k a w

module _ {A : Type 0} where
  pub Safe-test :
      (b : Bool) (m n : M A) (w : World) (Q : A → World → Type 0)
      → (b ≡ true → Safe (m w) Q)
      → (b ≡ false → Safe (n w) Q)
      → Safe ((if b then m else n) w) Q
  Safe-test true m n w Q hm hn = hm refl
  Safe-test false m n w Q hm hn = hn refl

-- A user who is logged in has a valid uid and password.
abbrev pub IsValid : Session → Type 0
IsValid s = s.logged_in ≡ true → valid_login s.uid s.password ≡ true

abbrev pub Keeps : Client → Round → World → Type 0
Keeps c (again c' out) w = IsValid c'.session
Keeps c stopped w = c.session.logged_in ≡ false

module _ ⦃p : Platform⦄ where
  login_safe :
      (s : Session) (w : World)
      → Safe (login s w) (λ got w'. got.0 ≡ true → valid_login s.uid s.password ≡ true)
  unfolding login
  login_safe s w =
      Safe-test (valid_login s.uid s.password) _ _ w _
        (λ h.
          always (λ got w'. got.0 ≡ true → valid_login s.uid s.password ≡ true) _ (λ got w' on. h))
        (λ _ on. cc on)
    where
      always :
          {A : Type 0} (Q : A → World → Type 0) (r : Option (A × World))
          → ((a : A) (v : World) → Q a v)
          → Safe r Q
      always Q none h = tt
      always Q (some (a, v)) h = h a v

  pub login_command-IsValid :
      (input : Bytes) (s : Session) (w : World)
      → IsValid s
      → Safe (login_command input s w) (λ got w'. IsValid got.0)
  unfolding login_command
  login_command-IsValid input s w h =
      Safe-test s.logged_in _ _ w _ (λ on. h) (λ off. typed (scan_login input s))
    where
      typed :
          (o : Option Session)
          → Safe
              ((elim o as (λ _. M (Session × Bytes)) [
                | none ↦ crash
                | some t ↦ login t >>= λ got. pure (record t { logged_in = got.0 }, got.1)
              ])
                w)
              (λ got w'. IsValid got.0)
      typed none = tt
      typed (some t) = Safe-bind (login t w) _ _ _ (login_safe t w) (λ got w' k. k)

  cleared-IsValid :
      (done : Bool) (s : Session) → IsValid s → IsValid (if done then no_session else s)
  cleared-IsValid true s h = λ on. cc on
  cleared-IsValid false s h = h

  pub logout_command-IsValid :
      (s : Session) (w : World) → IsValid s → Safe (logout_command s w) (λ got w'. IsValid got.0)
  unfolding logout_command
  logout_command-IsValid s w h =
      Safe-test (not s.logged_in) _ _ w _ (λ off. h)
        (λ on. Safe-next (logout s w) _ _ (λ got w'. cleared-IsValid got.0 s h))

  ended-IsValid :
      (done : Bool) (s : Session) (out more : Bytes) (w : World)
      → IsValid s
      → Safe {A = Session × Bytes}
          (pure (if done then (no_session, out) else (s, more)) w)
          (λ got w'. IsValid got.0)
  ended-IsValid true s out more w h = λ on. cc on
  ended-IsValid false s out more w h = h

  pub unregister_command-IsValid :
      (s : Session) (w : World)
      → IsValid s
      → Safe (unregister_command s w) (λ got w'. IsValid got.0)
  unfolding unregister_command
  unregister_command-IsValid s w h =
      Safe-test (not s.logged_in) _ _ w _ (λ off. h)
        (λ on. Safe-next (unregister s w) _ _ (λ got w'. ended-IsValid got.0 s got.1 _ w' h))

  pub asset_command-Keeps :
      (link : Link) (input : Bytes) (c : Client) (w : World)
      → IsValid c.session
      → Safe (asset_command link input c w) (Keeps c)
  unfolding asset_command
  asset_command-Keeps link input c w h =
      Safe-next (defined _ w) _ (Keeps c) (λ aid v.
        Safe-next (show_asset link.sent link.got aid c.assets v) _ (Keeps c) (λ got v'. h))

-- ===== src/Udp/Session/Keeps.antt =====
-- `handle_login`, `handle_logout` and `handle_unregister` keep the world sound.
use auction_simulator.Prelude.{◌≡◌, some, arith}
use auction_simulator.Text.{Bytes}
use auction_simulator.Text.Scan.{IsWord}
use auction_simulator.Input.Verify.Laws.{verify_password-IsWord}
use auction_simulator.World.{World}
use auction_simulator.World.Platform.{Platform}
use auction_simulator.World.Ends.{Ends, Ends-mono, Ends-read}
use auction_simulator.Auctions.Sound.{IsSound, Kept}
use auction_simulator.Auctions.Growth.{Kept-refl, Grows-aside}
use auction_simulator.Udp.Session.{credentials, handle_login, handle_logout, handle_unregister}
use auction_simulator.Udp.Session.Accounts.{
  Request, log_in, log_out, sign_off, perform, password_of, Follows,
}
use auction_simulator.Udp.Session.Refines.{perform-Follows}
use auction_simulator.Udp.Session.Credentials.{credentials_iff}

credentials-IsWord :
    (buffer uid password : Bytes) → credentials buffer ≡ some (uid, password) → IsWord password
credentials-IsWord buffer uid password e =
    verify_password-IsWord password ((credentials_iff buffer uid password).0 e).1

module _ ⦃p : Platform⦄ where
  Follows-Kept :
      (uid : Bytes) (r : Request) (w : World) (reply : Bytes) (w' : World)
      → IsSound w
      → Follows uid r w reply w'
      → Kept w w'
  Follows-Kept uid r w reply w' s f = record {
    sound = record { users = f.sound; auctions = rw f.auctions (s.auctions) };
    grows = Grows-aside w w' f.auctions (omega (arith, f.clock));
  }

  perform-Kept :
      (uid : Bytes) (r : Request) (w : World)
      → IsSound w
      → IsWord (password_of r)
      → Ends (perform uid r w) (λ reply w'. Kept w w')
  perform-Kept uid r w s word =
      Ends-mono (perform uid r w) (Follows uid r w) (λ reply w'. Kept w w')
        (perform-Follows uid r w s.users word) (λ reply w' f. Follows-Kept uid r w reply w' s f)

  pub handle_login-Kept :
      (buffer : Bytes) (w : World)
      → IsSound w
      → Ends (handle_login buffer w) (λ reply w'. Kept w w')
  unfolding handle_login
  handle_login-Kept buffer w s =
      Ends-read (credentials buffer) _ _ w _ (Kept-refl w s) (λ (uid, password) e.
        perform-Kept uid (log_in password) w s (credentials-IsWord buffer uid password e))

  pub handle_logout-Kept :
      (buffer : Bytes) (w : World)
      → IsSound w
      → Ends (handle_logout buffer w) (λ reply w'. Kept w w')
  unfolding handle_logout
  handle_logout-Kept buffer w s =
      Ends-read (credentials buffer) _ _ w _ (Kept-refl w s) (λ (uid, password) e.
        perform-Kept uid (log_out password) w s (credentials-IsWord buffer uid password e))

  pub handle_unregister-Kept :
      (buffer : Bytes) (w : World)
      → IsSound w
      → Ends (handle_unregister buffer w) (λ reply w'. Kept w w')
  unfolding handle_unregister
  handle_unregister-Kept buffer w s =
      Ends-read (credentials buffer) _ _ w _ (Kept-refl w s) (λ (uid, password) e.
        perform-Kept uid (sign_off password) w s (credentials-IsWord buffer uid password e))

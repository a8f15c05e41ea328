-- ===== src/Client/Session/Exchange.antt =====
-- A request of a session with valid fields is carried out by the server as the transition of its
-- account.
use auction_simulator.Prelude.{
  ◌<◌, ◌≡◌, refl, sym, ◌∙◌, ap, true, false, some, [], ◌∷◌, ◌++◌, arith, lt→ltb, length,
  length-append, take_all,
}
use auction_simulator.Text.{Bytes, codes, newline, blank, same}
use auction_simulator.Input.Udp.{read_command_udp}
use auction_simulator.Input.Verify.{verify_uid, verify_password}
use auction_simulator.World.{World}
use auction_simulator.World.Dir.{Values}
use auction_simulator.World.Monad.{M}
use auction_simulator.World.Ends.{Ends, Ends-bind}
use auction_simulator.World.Platform.{Platform}
use auction_simulator.Input.Verify.Laws.{verify_password-IsWord}
use auction_simulator.Users.Laws.{IsUser}
use auction_simulator.Udp.Session.{credentials, handle_login, handle_logout, handle_unregister}
use auction_simulator.Udp.Session.Accounts.{
  account, Account, absent, known, Request, log_in, log_out, sign_off, perform, password_of,
  transition, Follows,
}
use auction_simulator.Udp.Session.Refines.{perform-Follows}
use auction_simulator.Udp.Session.Credentials.{credentials_iff, LoginLine}
use auction_simulator.Udp.Dispatch.{process_udp_request, command_udp, dispatch_udp}
use auction_simulator.Client.Network.{connect_udp}
use auction_simulator.Client.Requests.{login_request, logout_request, unregister_request}
use auction_simulator.Client.Session.{valid_login}

-- What passes the tests of the client passes those of the server.
pub valid_verified :
    (uid password : Bytes)
    → valid_login uid password ≡ true
    → (verify_uid uid ≡ true) × (verify_password password ≡ true)
unfolding valid_login verify_uid verify_password
valid_verified uid password h = ground arith

-- The datagram of a request.
abbrev pub datagram : Bytes → Request → Bytes
datagram uid (log_in password) = login_request uid password
datagram uid (log_out password) = logout_request uid password
datagram uid (sign_off password) = unregister_request uid password

abbrev command : Request → Bytes
command (log_in password) = codes "LIN "
command (log_out password) = codes "LOU "
command (sign_off password) = codes "UNR "

fields_length :
    (uid password : Bytes)
    → valid_login uid password ≡ true
    → length (uid ++ blank ∷ (password ++ newline ∷ [])) ≡ 16
unfolding valid_login
fields_length uid password h = ground (
  arith,
  length-append uid (blank ∷ (password ++ newline ∷ [])),
  length-append password (newline ∷ []),
)

-- `snprintf` cuts nothing.
datagram-eq :
    (uid : Bytes) (r : Request)
    → valid_login uid (password_of r) ≡ true
    → datagram uid r ≡ command r ++ (uid ++ blank ∷ (password_of r ++ newline ∷ []))
unfolding login_request logout_request unregister_request
datagram-eq uid (log_in password) h = take_all 99 _ (omega (arith, fields_length uid password h))
datagram-eq uid (log_out password) h = take_all 99 _ (omega (arith, fields_length uid password h))
datagram-eq uid (sign_off password) h = take_all 99 _ (omega (arith, fields_length uid password h))

-- The server reads the fields that the client has sent.
pub credentials-datagram :
    (uid : Bytes) (r : Request)
    → valid_login uid (password_of r) ≡ true
    → credentials (datagram uid r) ≡ some (uid, password_of r)
credentials-datagram uid r h =
    let (hu, hp) = valid_verified uid (password_of r) h in
    ap credentials (datagram-eq uid r h)
    ∙ (credentials_iff _ uid (password_of r)).1 (hu, hp, ([], line r))
  where
    line :
        (q : Request)
        → LoginLine
            (command q ++ (uid ++ blank ∷ (password_of q ++ newline ∷ [])))
            uid
            (password_of q)
            []
    line (log_in password) = refl
    line (log_out password) = refl
    line (sign_off password) = refl

abbrev handle : Request → Bytes → M Bytes
handle (log_in password) = handle_login
handle (log_out password) = handle_logout
handle (sign_off password) = handle_unregister

handle_read :
    (uid : Bytes) (r : Request) (buffer : Bytes) (w : World)
    → credentials buffer ≡ some (uid, password_of r)
    → handle r buffer w ≡ perform uid r w
unfolding handle_login handle_logout handle_unregister
handle_read uid (log_in password) buffer w e = rw (e, handle_login) refl
handle_read uid (log_out password) buffer w e = rw (e, handle_logout) refl
handle_read uid (sign_off password) buffer w e = rw (e, handle_unregister) refl

module _ ⦃p : Platform⦄ where
  handled :
      (r : Request) (t : Bytes) (w : World)
      → process_udp_request (command r ++ t) w ≡ handle r (command r ++ t) w
  unfolding process_udp_request read_command_udp command_udp dispatch_udp same
  handled (log_in password) t w = refl
  handled (log_out password) t w = refl
  handled (sign_off password) t w = refl

  -- The server performs the request.
  process-datagram :
      (uid : Bytes) (r : Request) (w : World)
      → valid_login uid (password_of r) ≡ true
      → process_udp_request (datagram uid r) w ≡ perform uid r w
  process-datagram uid r w h =
      let e = datagram-eq uid r h in
      rw e (handled r _ w)
      ∙ handle_read uid r _ w (ap credentials (sym e) ∙ credentials-datagram uid r h)

  transition-short : (r : Request) (a : Account) → length (transition r a).1 < 128
  unfolding transition
  transition-short (log_in password) absent = omega arith
  transition-short (log_in password) (known q true) = omega arith
  transition-short (log_in password) (known q false) = ground arith
  transition-short (log_out password) absent = omega arith
  transition-short (log_out password) (known q false) = omega arith
  transition-short (log_out password) (known q true) = ground arith
  transition-short (sign_off password) absent = omega arith
  transition-short (sign_off password) (known q false) = omega arith
  transition-short (sign_off password) (known q true) = ground arith

  -- A request with valid fields reaches the server, which moves the account by the transition, and
  -- the client gets the transition's reply; nothing else of the accounts changes.
  pub connect-Follows :
      (uid : Bytes) (r : Request) (w : World)
      → Values IsUser w.users
      → valid_login uid (password_of r) ≡ true
      → Ends (connect_udp 128 (datagram uid r) w) (Follows uid r w)
  unfolding connect_udp
  connect-Follows uid r w sound h =
      let word = verify_password-IsWord (password_of r) (valid_verified uid (password_of r) h).1 in
      Ends-bind (process_udp_request (datagram uid r) w) _ (Follows uid r w) (Follows uid r w)
        (rw (process-datagram uid r w h) (perform-Follows uid r w sound word))
        (λ reply w' f.
          let short : length reply < 128 = rw f.replied (transition-short r (account uid w)) in
          rw (Ends, take_all 8095 reply (omega arith), lt→ltb (length reply) 128 short) f)

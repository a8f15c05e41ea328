-- ===== src/Client/Requests/Received.antt =====
-- What the server does with the requests of the client for bids, closings and assets.
use mathlib.Core.Path.{ap₂}
use auction_simulator.Prelude.{
  ℕ, ◌<◌, ◌≡◌, ◌≢◌, refl, ◌∙◌, ap, true, some, List, [], ◌∷◌, ◌++◌, arith, length-append, take_all,
}
use auction_simulator.Text.{Bytes, codes, newline, blank, all, same, c_string}
use auction_simulator.Text.Decimal.{print3, atoi}
use auction_simulator.Text.Int.{pos}
use auction_simulator.Text.Pad.{print_padded, print_right-full}
use auction_simulator.Input.Verify.{
  verify_uid, verify_password, verify_aid, verify_bid_args, verify_close_args,
}
use auction_simulator.Socket.{Socket}
use auction_simulator.Client.Requests.Laws.{Sendable}
use auction_simulator.World.{World}
use auction_simulator.World.Platform.{Platform}
use auction_simulator.Tcp.Fields.{final}
use auction_simulator.Tcp.Bid.{read_bid, bid_as, handle_bid}
use auction_simulator.Tcp.Close.{read_close, close_as, handle_close}
use auction_simulator.Tcp.Asset.{handle_show_asset, show_asset}
use auction_simulator.Tcp.Dispatch.{process_tcp_request, dispatch_tcp}
use auction_simulator.Client.Session.{valid_login}
use auction_simulator.Client.Session.Exchange.{valid_verified}
use auction_simulator.Client.Requests.{bid_request, close_request, show_asset_request}
use auction_simulator.Client.Requests.Numbers.{
  length-print_padded, atoi-print_padded, print_padded-print3,
}
use auction_simulator.Client.Requests.Laws.{
  Sendable, coming, inner_reads, final_reads, command_reads,
}
use auction_simulator.Client.Requests.Admitted.{
  number-Sendable, number-ne-nil, password-Sendable, password-ne-nil, password_whole, uid-Sendable,
  uid-ne-nil, uid_whole, verify_aid-number, verify_bid_value-number,
}

module _ (uid password : Bytes) (aid : ℕ) (u : verify_uid uid ≡ true)
    (q : verify_password password ≡ true) (small : aid < 1000) where
  abbrev a_text : Bytes
  a_text = print_padded 3 (pos aid)

  abbrev bid_fields : ℕ → Bytes
  bid_fields value =
      uid
      ++ blank
        ∷ (password ++ blank ∷ (a_text ++ blank ∷ (print_padded 6 (pos value) ++ newline ∷ [])))

  abbrev close_fields : Bytes
  close_fields = uid ++ blank ∷ (password ++ blank ∷ (a_text ++ newline ∷ []))

  bid_request-eq :
      (value : ℕ)
      → value < 1000000
      → bid_request uid password (pos aid) (pos value) ≡ codes "BID " ++ bid_fields value
  unfolding bid_request
  bid_request-eq value h =
      let v_text = print_padded 6 (pos value) in
      rw
        (
          print_right-full 6 uid (uid_whole uid u),
          print_right-full 8 password (password_whole password q),
        )
        (take_all 31 _ (
          omega (
            arith,
            uid_whole uid u,
            password_whole password q,
            length-print_padded 2 aid (omega arith),
            length-print_padded 5 value (omega arith),
            length-append uid
                (blank ∷ (password ++ blank ∷ (a_text ++ blank ∷ (v_text ++ newline ∷ [])))),
            length-append password (blank ∷ (a_text ++ blank ∷ (v_text ++ newline ∷ []))),
            length-append a_text (blank ∷ (v_text ++ newline ∷ [])),
            length-append v_text (newline ∷ []),
          )))

  close_request-eq : close_request uid password (pos aid) ≡ codes "CLS " ++ close_fields
  unfolding close_request
  close_request-eq =
      rw
        (
          print_right-full 6 uid (uid_whole uid u),
          print_right-full 8 password (password_whole password q),
        )
        (take_all 24 _ (
          omega (
            arith,
            uid_whole uid u,
            password_whole password q,
            length-print_padded 2 aid (omega arith),
            length-append uid (blank ∷ (password ++ blank ∷ (a_text ++ newline ∷ []))),
            length-append password (blank ∷ (a_text ++ newline ∷ [])),
            length-append a_text (newline ∷ []),
          )))

  read_bid-fields :
      (value : ℕ) (limits : List ℕ)
      → value < 1000000
      → read_bid (coming (bid_fields value) limits)
        ≡ some (record {
          uid = uid;
          password = password;
          aid = a_text;
          value = print_padded 6 (pos value);
        })
  unfolding read_bid
  read_bid-fields value limits h =
      let v_text = print_padded 6 (pos value) in
      let (l1, e1) =
        inner_reads 6 uid (password ++ blank ∷ (a_text ++ blank ∷ (v_text ++ newline ∷ []))) limits
          (uid-Sendable uid u) (uid-ne-nil uid u) in
      let (l2, e2) =
        inner_reads 8 password (a_text ++ blank ∷ (v_text ++ newline ∷ [])) l1
          (password-Sendable password q) (password-ne-nil password q) in
      let (l3, e3) =
        inner_reads 3 a_text (v_text ++ newline ∷ []) l2 (number-Sendable 2 aid (omega arith))
          (number-ne-nil 2 aid (omega arith)) in
      let e4 = final_reads 6 v_text l3 (number-Sendable 5 value (omega arith)) in
      rw (e1, e2, e3, e4) refl

  read_close-fields :
      (limits : List ℕ)
      → read_close (coming close_fields limits)
        ≡ some (record { uid = uid; password = password; aid = a_text })
  unfolding read_close
  read_close-fields limits =
      let (l1, e1) =
        inner_reads 6 uid (password ++ blank ∷ (a_text ++ newline ∷ [])) limits (uid-Sendable uid u)
          (uid-ne-nil uid u) in
      let (l2, e2) =
        inner_reads 8 password (a_text ++ newline ∷ []) l1 (password-Sendable password q)
          (password-ne-nil password q) in
      let e3 = final_reads 3 a_text l2 (number-Sendable 2 aid (omega arith)) in rw (e1, e2, e3) refl

module _ ⦃p : Platform⦄ where
  pub dispatched :
      (command fields : Bytes) (limits : List ℕ) (w : World)
      → Sendable 4 command
      → command ≢ []
      → (later : List ℕ) × (process_tcp_request (coming (command ++ blank ∷ fields) limits) w
          ≡ dispatch_tcp command (coming fields later) w)
  unfolding process_tcp_request
  dispatched command fields limits w a ne =
      let (later, b, s) = command_reads command fields limits a ne in
      (later, ap₂ (λ c t. dispatch_tcp c t w) b s)

  bid_read :
      (uid password aid value : Bytes) (s : Socket) (w : World)
      → read_bid s ≡ some (record { uid = uid; password = password; aid = aid; value = value })
      → verify_bid_args uid password aid value ≡ true
      → handle_bid s w ≡ bid_as uid password (atoi aid) (atoi value) w
  unfolding handle_bid
  bid_read uid password aid value s w e h = rw (e, handle_bid, h) refl

  close_read :
      (uid password aid : Bytes) (s : Socket) (w : World)
      → read_close s ≡ some (record { uid = uid; password = password; aid = aid })
      → verify_close_args uid password aid ≡ true
      → handle_close s w ≡ close_as uid password aid w
  unfolding handle_close
  close_read uid password aid s w e h = rw (e, handle_close, h) refl

  asset_read :
      (aid : Bytes) (s : Socket) (w : World)
      → final 3 s ≡ some aid
      → verify_aid aid ≡ true
      → handle_show_asset s w ≡ show_asset aid w
  unfolding handle_show_asset
  asset_read aid s w e h = rw (e, handle_show_asset, h) refl

  -- For a uid and password that pass the client's tests, an identifier up to 999 and a value up
  -- to 999999, the server does with the client's request for a bid what bid_as does with these
  -- values, whatever pieces the request arrives in.
  pub bid_request-bid_as :
      (uid password : Bytes) (aid value : ℕ) (limits : List ℕ) (w : World)
      → valid_login uid password ≡ true
      → aid < 1000
      → value < 1000000
      → process_tcp_request (coming (bid_request uid password (pos aid) (pos value)) limits) w
        ≡ bid_as uid password aid value w
  unfolding c_string all verify_bid_args dispatch_tcp same
  bid_request-bid_as uid password aid value limits w h small few =
      let (u, q) = valid_verified uid password h in
      let (later, e) =
        dispatched (codes "BID") (bid_fields uid password aid u q small value) limits w
          (record { fits = omega arith; plain = refl; whole = refl }) (λ nil. cc nil) in
      ap (λ t. process_tcp_request (coming t limits) w)
        (bid_request-eq uid password aid u q small value few)
      ∙ e
      ∙ bid_read uid password _ _ _ w (read_bid-fields uid password aid u q small value later few)
          (rw (u, q, verify_aid-number aid small, verify_bid_value-number value few) refl)
      ∙ ap₂ (λ a v. bid_as uid password a v w) (atoi-print_padded 3 aid) (atoi-print_padded 6 value)

  -- For a uid and password that pass the client's tests and an identifier up to 999, the server
  -- does with the client's request for a closing what close_as does with the auction's name,
  -- whatever pieces the request arrives in.
  pub close_request-close_as :
      (uid password : Bytes) (aid : ℕ) (limits : List ℕ) (w : World)
      → valid_login uid password ≡ true
      → aid < 1000
      → process_tcp_request (coming (close_request uid password (pos aid)) limits) w
        ≡ close_as uid password (print3 aid) w
  unfolding c_string all verify_close_args dispatch_tcp same
  close_request-close_as uid password aid limits w h small =
      let (u, q) = valid_verified uid password h in
      let (later, e) =
        dispatched (codes "CLS") (close_fields uid password aid u q small) limits w
          (record { fits = omega arith; plain = refl; whole = refl }) (λ nil. cc nil) in
      ap (λ t. process_tcp_request (coming t limits) w)
        (close_request-eq uid password aid u q small)
      ∙ e
      ∙ close_read uid password _ _ w (read_close-fields uid password aid u q small later)
          (rw (u, q, verify_aid-number aid small) refl)
      ∙ ap (λ a. close_as uid password a w) (print_padded-print3 aid)

  -- The same for an asset, whose request needs no session.
  pub show_asset_request-show_asset :
      (aid : ℕ) (limits : List ℕ) (w : World)
      → aid < 1000
      → process_tcp_request (coming (show_asset_request (pos aid)) limits) w
        ≡ show_asset (print3 aid) w
  unfolding c_string all show_asset_request dispatch_tcp same
  show_asset_request-show_asset aid limits w small =
      let text = print_padded 3 (pos aid) in
      let (later, e) =
        dispatched (codes "SAS") (text ++ newline ∷ []) limits w
          (record { fits = omega arith; plain = refl; whole = refl }) (λ nil. cc nil) in
      ap (λ t. process_tcp_request (coming t limits) w)
        (take_all 9 (codes "SAS " ++ (text ++ newline ∷ [])) (
          omega
            (arith, length-append text (newline ∷ []), length-print_padded 2 aid (omega arith))))
      ∙ e
      ∙ asset_read text _ w (final_reads 3 text later (number-Sendable 2 aid (omega arith)))
          (verify_aid-number aid small)
      ∙ ap (λ a. show_asset a w) (print_padded-print3 aid)

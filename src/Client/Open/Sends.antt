-- ===== src/Client/Open/Sends.antt =====
-- `openAuction`: the request with the file behind it, and the server's `open_auction`.

use auction_simulator.Prelude.{
  ℕ, ◌≡◌, refl, ◌∙◌, ap, true, some, List, [], ◌∷◌, ◌++◌, arith, take_all, length, leb,
}
use auction_simulator.Text.{Bytes, codes, newline, blank, all, same, c_string}
use auction_simulator.Text.Decimal.{print, value}
use auction_simulator.Text.Int.{pos}
use auction_simulator.Text.Scan.{scan_string-next, scan_number-next}
use auction_simulator.Text.Pad.{scan_d-print}
use auction_simulator.Input.Verify.{verify_uid, verify_password, verify_open_args}
use auction_simulator.Input.Verify.Laws.{
  verify_uid-IsWord, verify_password-IsWord, verify_name-IsWord, verify_asset_fname-IsWord,
}
use auction_simulator.Socket.{Socket}
use auction_simulator.World.{World}
use auction_simulator.World.Dir.{find}
use auction_simulator.World.Platform.{Platform}
use auction_simulator.Tcp.Open
use auction_simulator.Tcp.Open.{OpenArgs, read_open, handle_open}
use auction_simulator.Tcp.Dispatch.{process_tcp_request, dispatch_tcp}
use auction_simulator.Client.Asset.{Files}
use auction_simulator.Client.Buffer.{starts}
use auction_simulator.Client.Words.{scan_upload}
use auction_simulator.Client.Connection.{upload}
use auction_simulator.Client.Session.{valid_login}
use auction_simulator.Client.Session.Exchange.{valid_verified}
use auction_simulator.Client.Requests.{open_request}
use auction_simulator.Client.Requests.Laws.{coming}
use auction_simulator.Client.Requests.Received.{dispatched}
use auction_simulator.Client.Open.Checks.{
  Offer, offer-time, offer-verify, offer-fname, valid_filename-verify, fname-Sendable,
}
use auction_simulator.Client.Open.Laws.{
  open_args, open_fields, open_request-eq, request-append, read_open-fields,
}

module _ ⦃p : Platform⦄ where
  open_read :
      (a : OpenArgs) (s later : Socket) (w : World)
      → read_open s ≡ some (a, later)
      → verify_open_args a.uid a.password a.name a.start_value a.timeactive a.asset_fname a.fsize
        ≡ true
      → handle_open s w ≡ Open.open_auction a later w
  unfolding handle_open
  open_read a s later w e h = rw (e, handle_open, h) refl

  -- For a uid and password that pass the client's tests, and an offer that passes its checks,
  -- with a name that the server accepts and a value up to 999999, the server does with the
  -- client's request what open_auction does with these arguments, and has what stands behind the
  -- request still to read, whatever pieces it arrives in.
  pub open_request-open_auction :
      (uid password name asset_fname : Bytes) (value time fsize : ℕ) (rest : Bytes)
      (limits : List ℕ) (w : World)
      → valid_login uid password ≡ true
      → Offer name asset_fname value time fsize
      → (later : List ℕ) × (process_tcp_request
            (coming
              (open_request uid password name (pos value) (pos time) asset_fname fsize ++ rest)
              limits)
            w
          ≡ Open.open_auction
              (open_args uid password name asset_fname value time fsize)
              (coming rest later)
              w)
  unfolding c_string all dispatch_tcp same
  open_request-open_auction uid password name asset_fname value time fsize rest limits w h o =
      let (u, q) = valid_verified uid password h in
      let fields = open_fields uid password name asset_fname value time fsize rest in
      let (l1, e1) =
        dispatched (codes "OPA") fields limits w
          (record { fits = omega arith; plain = refl; whole = refl }) (λ nil. cc nil) in
      let (l2, e2) =
        read_open-fields uid password name asset_fname value time fsize u q o rest l1 in
      (
        l2,
        ap (λ t. process_tcp_request (coming t limits) w)
              (request-append uid password name asset_fname value time fsize u q o rest)
            ∙ e1
            ∙ open_read (open_args uid password name asset_fname value time fsize)
                (coming fields l1) (coming rest l2) w e2
                (offer-verify name asset_fname value time fsize o uid password u q),
      )

-- `connect_TCP` finds the name and the size in the request that `openAuction` has written.
scan_upload-request :
    (uid password name asset_fname : Bytes) (value time fsize : ℕ)
    → verify_uid uid ≡ true
    → verify_password password ≡ true
    → Offer name asset_fname value time fsize
    → scan_upload (codes "OPA " ++ open_fields uid password name asset_fname value time fsize [])
      ≡ some (asset_fname, fsize)
unfolding scan_upload
scan_upload-request uid password name asset_fname value time fsize u q o =
    let s7 = print fsize ++ blank ∷ [] in
    let s6 = asset_fname ++ blank ∷ s7 in
    let s5 = print time ++ blank ∷ s6 in
    let s4 = print value ++ blank ∷ s5 in
    let s3 = name ++ blank ∷ s4 in
    let e1 = scan_string-next uid (password ++ blank ∷ s3) (verify_uid-IsWord uid u) in
    let e2 = scan_string-next password s3 (verify_password-IsWord password q) in
    let e3 = scan_string-next name s4 (verify_name-IsWord name o.named) in
    let e4 = scan_d-print value s5 (omega (arith, o.few)) in
    let e5 = scan_d-print time s6 (omega (arith, offer-time name asset_fname value time fsize o)) in
    let e6 = scan_string-next asset_fname s7 (
      verify_asset_fname-IsWord asset_fname
        (valid_filename-verify asset_fname (offer-fname name asset_fname value time fsize o))) in
    let e7 = scan_number-next fsize [] in
    let small : leb (length asset_fname) 24 ≡ true =
      ground (arith, (fname-Sendable name asset_fname value time fsize o).fits) in
    rw (e1, e2, e3, e4, e5, e6, small, e7) refl

-- Behind a request to open an auction, for a uid and password that pass the client's tests and an
-- offer that passes its checks, with a name that the server accepts and a value up to 999999,
-- connect_TCP sends all bytes of the local file that the request names, and a line end.
pub upload-open_request :
    (uid password name asset_fname content : Bytes) (value time : ℕ) (local_assets : Files)
    → valid_login uid password ≡ true
    → Offer name asset_fname value time (length content)
    → find asset_fname local_assets ≡ some content
    → upload local_assets
        (open_request uid password name (pos value) (pos time) asset_fname (length content))
      ≡ some (content ++ newline ∷ [])
unfolding upload starts same
upload-open_request uid password name asset_fname content value time local_assets h o found =
    let (u, q) = valid_verified uid password h in
    ap (upload local_assets)
      (open_request-eq uid password name asset_fname value time (length content) u q o)
    ∙ rw
        (
          scan_upload-request uid password name asset_fname value time (length content) u q o,
          found,
          take_all (length content) content (omega arith),
        )
        refl

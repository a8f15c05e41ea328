-- ===== src/Client/Open/Laws.antt =====
-- `openAuction`: what the server reads from the request and the file behind it.

use auction_simulator.Prelude.{
  ℕ, ◌≤◌, ◌≡◌, refl, ◌∙◌, ap, true, some, List, [], ◌∷◌, ◌++◌, arith, append_assoc, take_all,
  length, length-append,
}
use auction_simulator.Text.{Bytes, codes, blank}
use auction_simulator.Text.Decimal.{print, print-ne-nil, length-print_upper}
use auction_simulator.Text.Int.{pos, print_int}
use auction_simulator.Input.Verify.{verify_uid, verify_password}
use auction_simulator.Tcp.Open.{OpenArgs, read_open}
use auction_simulator.Client.Requests.{open_request}
use auction_simulator.Client.Requests.Laws.{coming, inner_reads}
use auction_simulator.Client.Requests.Admitted.{
  uid-Sendable, password-Sendable, uid-ne-nil, password-ne-nil, long-ne-nil, uid_whole,
  password_whole,
}
use auction_simulator.Client.Open.Checks.{
  Offer, offer-size, offer-time, name-Sendable, name-filled, fname-Sendable, fname-filled,
  print-Sendable,
}

regroup :
    (a b c d e f g rest : Bytes)
    → (codes "OPA "
          ++ (a
              ++ blank
                ∷ (b
                    ++ blank
                      ∷ (c
                          ++ blank
                            ∷ (d ++ blank ∷ (e ++ blank ∷ (f ++ blank ∷ (g ++ blank ∷ []))))))))
        ++ rest
      ≡ codes "OPA "
        ++ (a
            ++ blank
              ∷ (b
                  ++ blank
                    ∷ (c
                        ++ blank
                          ∷ (d ++ blank ∷ (e ++ blank ∷ (f ++ blank ∷ (g ++ blank ∷ rest)))))))
regroup a b c d e f g rest = simp append_assoc

module _ (uid password name asset_fname : Bytes) (value time fsize : ℕ) where
  abbrev pub open_args : OpenArgs
  open_args = record {
    uid = uid;
    password = password;
    name = name;
    start_value = print value;
    timeactive = print time;
    asset_fname = asset_fname;
    fsize = print fsize;
  }

  abbrev pub open_fields : Bytes → Bytes
  open_fields rest =
      uid
      ++ blank
        ∷ (password
            ++ blank
              ∷ (name
                  ++ blank
                    ∷ (print value
                        ++ blank
                          ∷ (print time
                              ++ blank ∷ (asset_fname ++ blank ∷ (print fsize ++ blank ∷ rest))))))

  module _ (u : verify_uid uid ≡ true) (q : verify_password password ≡ true)
      (o : Offer name asset_fname value time fsize) where
    -- `snprintf` cuts nothing.
    length-fields : length (open_fields []) ≤ 74
    length-fields =
        let v = length-print_upper 5 value o.few in
        let t = length-print_upper 4 time (offer-time name asset_fname value time fsize o) in
        let z =
          length-print_upper 7 fsize
            (omega (arith, offer-size name asset_fname value time fsize o)) in
        let n = (name-Sendable name asset_fname value time fsize o).fits in
        let f = (fname-Sendable name asset_fname value time fsize o).fits in
        omega (
          arith,
          v,
          t,
          z,
          n,
          f,
          uid_whole uid u,
          password_whole password q,
          length-append uid (
              blank
              ∷ (password
                  ++ blank
                    ∷ (name
                        ++ blank
                          ∷ (print value
                              ++ blank
                                ∷ (print time
                                    ++ blank
                                      ∷ (asset_fname ++ blank ∷ (print fsize ++ blank ∷ []))))))),
          length-append password (
              blank
              ∷ (name
                  ++ blank
                    ∷ (print value
                        ++ blank
                          ∷ (print time
                              ++ blank ∷ (asset_fname ++ blank ∷ (print fsize ++ blank ∷ [])))))),
          length-append name (
              blank
              ∷ (print value
                  ++ blank
                    ∷ (print time
                        ++ blank ∷ (asset_fname ++ blank ∷ (print fsize ++ blank ∷ []))))),
          length-append (print value) (
              blank ∷ (print time ++ blank ∷ (asset_fname ++ blank ∷ (print fsize ++ blank ∷ [])))),
          length-append (print time) (blank ∷ (asset_fname ++ blank ∷ (print fsize ++ blank ∷ []))),
          length-append asset_fname (blank ∷ (print fsize ++ blank ∷ [])),
          length-append (print fsize) (blank ∷ []),
        )

    pub open_request-eq :
        open_request uid password name (pos value) (pos time) asset_fname fsize
        ≡ codes "OPA " ++ open_fields []
    unfolding open_request print_int
    open_request-eq = take_all 99 (codes "OPA " ++ open_fields []) (omega (arith, length-fields))

    pub request-append :
        (rest : Bytes)
        → open_request uid password name (pos value) (pos time) asset_fname fsize ++ rest
          ≡ codes "OPA " ++ open_fields rest
    request-append rest =
        ap (λ t. t ++ rest) open_request-eq
        ∙ regroup uid password name (print value) (print time) asset_fname (print fsize) rest

    pub read_open-fields :
        (rest : Bytes) (limits : List ℕ)
        → (later : List ℕ) × (read_open (coming (open_fields rest) limits)
            ≡ some (open_args, coming rest later))
    unfolding read_open
    read_open-fields rest limits =
        let s7 = print fsize ++ blank ∷ rest in
        let s6 = asset_fname ++ blank ∷ s7 in
        let s5 = print time ++ blank ∷ s6 in
        let s4 = print value ++ blank ∷ s5 in
        let s3 = name ++ blank ∷ s4 in
        let s2 = password ++ blank ∷ s3 in
        let (l1, e1) = inner_reads 6 uid s2 limits (uid-Sendable uid u) (uid-ne-nil uid u) in
        let (l2, e2) =
          inner_reads 8 password s3 l1 (password-Sendable password q)
            (password-ne-nil password q) in
        let (l3, e3) =
          inner_reads 10 name s4 l2 (name-Sendable name asset_fname value time fsize o)
            (long-ne-nil name (name-filled name asset_fname value time fsize o)) in
        let (l4, e4) =
          inner_reads 6 (print value) s5 l3 (print-Sendable 5 value o.few) (print-ne-nil value) in
        let (l5, e5) =
          inner_reads 5 (print time) s6 l4
            (print-Sendable 4 time (offer-time name asset_fname value time fsize o))
            (print-ne-nil time) in
        let (l6, e6) =
          inner_reads 24 asset_fname s7 l5 (fname-Sendable name asset_fname value time fsize o)
            (long-ne-nil asset_fname (fname-filled name asset_fname value time fsize o)) in
        let (l7, e7) =
          inner_reads 8 (print fsize) rest l6
            (print-Sendable 7 fsize (omega (arith, offer-size name asset_fname value time fsize o)))
            (print-ne-nil fsize) in
        (l7, rw (e1, e2, e3, e4, e5, e6, e7) refl)

-- ===== src/Client/Lists/Bids.antt =====
-- `myBids` with the server at the other end.
use auction_simulator.Prelude.{
  ◌≤◌, ◌<◌, ◌≡◌, refl, ◌∙◌, ap, Bool, true, some, List, [], ◌∷◌, ◌++◌, append_assoc, arith, length,
  length-append, take_all, lt→ltb, All,
}
use auction_simulator.Text.{Bytes, codes, newline, same, all, is_digit}
use auction_simulator.Text.Pad.{print_right, snprintf, print_right-full}
use auction_simulator.Input.Udp.{read_command_udp, read_uid_udp_final, read_chars}
use auction_simulator.World.{World, UserDir}
use auction_simulator.World.Dir.{find}
use auction_simulator.World.Platform.{Platform}
use auction_simulator.World.Ends.{Ends, Ends-bind, Ends-test, Ends-some, fitted-Ends}
use auction_simulator.Users.{is_user_login}
use auction_simulator.Auctions.Listing.{append_states, fetch_auctions, status_of, user_bids_status}
use auction_simulator.Auctions.Listing.Length.{length-fetch_auctions, IsEntry}
use auction_simulator.Auctions.Listing.Laws.{entries, Listed, Told, append_states-Listed}
use auction_simulator.Auctions.Sound.{IsSound, Kept}
use auction_simulator.Udp.Queries.{handle_mybids, or_nok}
use auction_simulator.Udp.Dispatch.{process_udp_request, command_udp, dispatch_udp}
use auction_simulator.Client.Network.{connect_udp}
use auction_simulator.Client.Listing.{my_bids_answer}
use auction_simulator.Client.Listing.Laws.{IsShort, lines}
use auction_simulator.Client.Listing.Answers.{list_reply, my_bids_answer-list_reply}
use auction_simulator.Client.Listing.Bounds.{length-list_reply, Told-length}
use auction_simulator.Client.Lists.{my_bids}
use auction_simulator.Client.Lists.Laws.{IsName, All-IsShort, All-IsAid, Shown}

-- A uid of six digits.
pub record IsUid (uid : Bytes) : Type 0 where
  pub digits : all is_digit uid ≡ true
  pub six : length uid ≡ 6

read_uid_line :
    (uid : Bytes)
    → IsUid uid
    → read_uid_udp_final (codes "LMB " ++ (uid ++ newline ∷ [])) ≡ some uid
unfolding read_uid_udp_final read_chars all
read_uid_line [] h = absurd (omega (arith, h.six))
read_uid_line (a ∷ []) h = absurd (omega (arith, h.six))
read_uid_line (a ∷ b ∷ []) h = absurd (omega (arith, h.six))
read_uid_line (a ∷ b ∷ c ∷ []) h = absurd (omega (arith, h.six))
read_uid_line (a ∷ b ∷ c ∷ d ∷ []) h = absurd (omega (arith, h.six))
read_uid_line (a ∷ b ∷ c ∷ d ∷ e ∷ []) h = absurd (omega (arith, h.six))
read_uid_line (a ∷ b ∷ c ∷ d ∷ e ∷ f ∷ []) h = ground (arith, h.digits)
read_uid_line (a ∷ b ∷ c ∷ d ∷ e ∷ f ∷ g ∷ rest) h = absurd (omega (arith, h.six))

request_text :
    (uid : Bytes)
    → IsUid uid
    → snprintf 12 (codes "LMB " ++ (print_right 6 uid ++ newline ∷ []))
      ≡ codes "LMB " ++ (uid ++ newline ∷ [])
request_text uid h =
    rw (print_right-full 6 uid h.six)
      (take_all 11 _ (omega (arith, length-append uid (newline ∷ []), h.six)))

shows :
    (ids : List Bytes) (states : List Bool)
    → All IsShort ids
    → 0 < length ids
    → length ids ≤ length states
    → my_bids_answer (list_reply (codes "RMB") ids states)
      ≡ some (codes "Your current bids:\n" ++ lines ids states)
shows [] states h pos enough = absurd (omega arith)
shows (auc_id ∷ ids) [] h pos enough = absurd (omega arith)
shows (auc_id ∷ ids) (b ∷ states) h pos enough =
    my_bids_answer-list_reply auc_id b ids states h (omega arith)

module _ ⦃p : Platform⦄ where
  record Sent (ids : List Bytes) (w : World) (reply : Bytes) (w' : World) : Type 0 where
    kept : Kept w w'
    states : List Bool
    text : reply ≡ list_reply (codes "RMB") ids states
    told : Told ids states w w'

  dispatched :
      (t : Bytes) (w : World)
      → process_udp_request (codes "LMB " ++ t) w ≡ handle_mybids (codes "LMB " ++ t) w
  unfolding process_udp_request read_command_udp command_udp dispatch_udp same
  dispatched t w = refl

  module _ (uid : Bytes) (u : UserDir) (w : World) (s : IsSound w) (is_uid : IsUid uid)
      (logged : is_user_login uid w ≡ true) (found : find uid w.users ≡ some u)
      (named : All IsName (fetch_auctions u.bidded)) (pos : 0 < length u.bidded)
      (few : length u.bidded ≤ 169) where
    abbrev ids : List Bytes
    ids = fetch_auctions u.bidded

    size : (reply : Bytes) (w' : World) → Sent ids w reply w' → length reply < 1024
    size reply w' t = omega (
      arith,
      ap length t.text,
      length-list_reply (codes "RMB") ids t.states (omega arith) (All-IsAid ids named)
          (Told-length ids t.states w w' t.told),
      length-fetch_auctions u.bidded,
    )

    -- The reply where the list is not empty.
    status_of-Sent :
        (names : List Bytes)
        → 0 < length names
        → Ends
            (status_of names (codes "RMB OK") w)
            (λ o w'. Sent (fetch_auctions names) w (or_nok (codes "RMB NOK") o) w')
    unfolding status_of
    status_of-Sent [] some_there = absurd (omega arith)
    status_of-Sent (name ∷ rest) some_there =
        let list = fetch_auctions (name ∷ rest) in
        Ends-bind (append_states list (codes "RMB OK") w) _ (Listed list (codes "RMB OK") w)
          (λ o w'. Sent list w (or_nok (codes "RMB NOK") o) w')
          (append_states-Listed list (codes "RMB OK") w s)
          (λ listed w' l. record {
            kept = l.kept;
            states = l.states;
            text =
                ap (λ t. t ++ newline ∷ []) l.text
                ∙ append_assoc (codes "RMB OK") (entries list l.states) (newline ∷ []);
            told = l.told;
          })

    listed_bids :
        Ends
          (user_bids_status uid (codes "RMB OK") w)
          (λ o w'. Sent ids w (or_nok (codes "RMB NOK") o) w')
    unfolding user_bids_status
    listed_bids = rw found (status_of-Sent u.bidded pos)

    handle_mybids-Sent : Ends (handle_mybids (codes "LMB " ++ (uid ++ newline ∷ [])) w) (Sent ids w)
    unfolding handle_mybids
    handle_mybids-Sent =
        Ends-some (read_uid_udp_final (codes "LMB " ++ (uid ++ newline ∷ []))) _ _ w _
          (read_uid_line uid is_uid)
          (Ends-test (is_user_login uid w) _ _ w _
            (λ on.
              Ends-bind (user_bids_status uid (codes "RMB OK") w) _
                (λ o w'. Sent ids w (or_nok (codes "RMB NOK") o) w') (Sent ids w) listed_bids
                (λ o w' t.
                  fitted-Ends 9999 (or_nok (codes "RMB NOK") o) w' (Sent ids w)
                    (omega (arith, size (or_nok (codes "RMB NOK") o) w' t)) t))
            (λ off. absurd (cc (off, logged))))

    -- In a sound world, for a user with a uid of six digits who is logged in on the server and
    -- has 1 to 169 bidded auctions, with file names of 5 to 8 bytes and identifiers of three
    -- bytes that are no separators, myBids gets the server's list without a crash of either side
    -- and prints the auctions in the order of their names, a line for each with the state 1 or 0;
    -- one with the state 1 is there with no END file at a moment of the request, one that is
    -- there and has the state 0 has an END file afterwards, and the world stays sound.
    pub my_bids-Shown :
        All IsEntry u.bidded → Ends (my_bids uid w) (Shown ids (codes "Your current bids:\n") w)
    unfolding my_bids connect_udp
    my_bids-Shown entered =
        Ends-bind
          (connect_udp 1024 (snprintf 12 (codes "LMB " ++ (print_right 6 uid ++ newline ∷ []))) w) _
          (Sent ids w) (Shown ids (codes "Your current bids:\n") w)
          (rw (request_text uid is_uid) (
            Ends-bind (process_udp_request (codes "LMB " ++ (uid ++ newline ∷ [])) w) _ (Sent ids w)
              (Sent ids w) (rw (dispatched (uid ++ newline ∷ []) w) handle_mybids-Sent)
              (λ reply w' t.
                let fits = size reply w' t in
                rw (Ends, take_all 8095 reply (omega arith), lt→ltb (length reply) 1024 fits) t)))
          (λ reply w' t.
            let enough = Told-length ids t.states w w' t.told in
            rw
              (
                Ends,
                t.text,
                shows ids t.states (All-IsShort ids named)
                    (omega (arith, length-fetch_auctions u.bidded)) enough,
              )
              (record { kept = t.kept; states = t.states; text = refl; told = t.told }))

-- ===== src/Client/Listing/Answers.antt =====
-- What `listAllAuctions`, `myAuctions` and `myBids` print of the server's lists.
use auction_simulator.Prelude.{
  ℕ, ◌≤◌, ◌≡◌, refl, ap, Bool, true, some, List, [], ◌∷◌, ◌++◌, arith, length, All,
}
use auction_simulator.Text.{Bytes, codes, newline, blank, all}
use auction_simulator.Text.Pad.{print_right}
use auction_simulator.Socket.Fields.{is_plain}
use auction_simulator.Auctions.Listing.Laws.{entries}
use auction_simulator.Client.Buffer.{starts, verify_buffer}
use auction_simulator.Client.Buffer.Lines.{line, verify_buffer-line}
use auction_simulator.Client.Listing.{print_pairs, list_answer, my_auctions_answer, my_bids_answer}
use auction_simulator.Client.Listing.Laws.{
  IsShort, Shorts, lines, tokens, entries-line, tokens-IsTokens, length-line, print_pairs-listing,
}

-- The server's list of auctions under a command such as "RLS".
abbrev pub list_reply : Bytes → List Bytes → List Bool → Bytes
list_reply command ids states = (command ++ codes " OK") ++ (entries ids states ++ newline ∷ [])

module _ (a b c : ℕ) (plain : all is_plain (a ∷ b ∷ c ∷ []) ≡ true) (auc_id : Bytes) (state : Bool)
    (ids : List Bytes) (states : List Bool) (h : IsShort auc_id) (hs : Shorts ids)
    (enough : length ids ≤ length states) where
  abbrev reply : Bytes
  reply = list_reply (a ∷ b ∷ c ∷ []) (auc_id ∷ ids) (state ∷ states)

  as_line : reply ≡ line (a ∷ b ∷ c ∷ []) (codes "OK" ∷ tokens (auc_id ∷ ids) (state ∷ states))
  unfolding line
  as_line =
      ap (λ s. a ∷ b ∷ c ∷ blank ∷ s) (entries-line (codes "OK") (auc_id ∷ ids) (state ∷ states))

  accepted : verify_buffer reply ≡ true
  unfolding all
  accepted = rw as_line (
      verify_buffer-line (a ∷ b ∷ c ∷ []) (codes "OK" ∷ tokens (auc_id ∷ ids) (state ∷ states))
        (record { plain = plain; filled = omega arith })
        (
          record { plain = refl; filled = omega arith },
          tokens-IsTokens (auc_id ∷ ids) (state ∷ states) (h, hs),
        ))

  printed :
      (out : Bytes)
      → print_pairs (length reply) reply 7 out ≡ some (out ++ lines (auc_id ∷ ids) (state ∷ states))
  unfolding line
  printed out = rw as_line (
      print_pairs-listing _ (a ∷ b ∷ c ∷ codes " OK ") auc_id state ids states out h hs enough (
        omega (arith, ap length as_line, length-line (codes "OK") (auc_id ∷ ids) (state ∷ states))))

module _ (auc_id : Bytes) (state : Bool) (ids : List Bytes) (states : List Bool)
    (h : All IsShort (auc_id ∷ ids)) (enough : length ids ≤ length states) where
  -- What `listAllAuctions` prints of the list of `handle_list`, once it is in its buffer: one auction a
  -- line with its state.
  pub list_answer-list_reply :
      list_answer (list_reply (codes "RLS") (auc_id ∷ ids) (state ∷ states))
      ≡ some (codes "Auctions currently open:\n" ++ lines (auc_id ∷ ids) (state ∷ states))
  unfolding list_answer starts all
  list_answer-list_reply =
      rw (accepted b'R' b'L' b'S' refl auc_id state ids states h.0 h.1 enough) (
        printed b'R' b'L' b'S' refl auc_id state ids states h.0 h.1 enough
          (codes "Auctions currently open:\n"))

  -- What `myAuctions` prints of the list of `handle_myauctions`.
  pub my_auctions_answer-list_reply :
      (uid : Bytes)
      → my_auctions_answer uid (list_reply (codes "RMA") (auc_id ∷ ids) (state ∷ states))
        ≡ some (
            (codes "User " ++ (print_right 6 uid ++ codes " auctions:\n"))
            ++ lines (auc_id ∷ ids) (state ∷ states))
  unfolding my_auctions_answer starts all
  my_auctions_answer-list_reply uid =
      rw (accepted b'R' b'M' b'A' refl auc_id state ids states h.0 h.1 enough)
        (printed b'R' b'M' b'A' refl auc_id state ids states h.0 h.1 enough _)

  -- What `myBids` prints of the list of `handle_mybids`, once it is in its buffer.
  pub my_bids_answer-list_reply :
      my_bids_answer (list_reply (codes "RMB") (auc_id ∷ ids) (state ∷ states))
      ≡ some (codes "Your current bids:\n" ++ lines (auc_id ∷ ids) (state ∷ states))
  unfolding my_bids_answer starts all
  my_bids_answer-list_reply =
      rw (accepted b'R' b'M' b'B' refl auc_id state ids states h.0 h.1 enough) (
        printed b'R' b'M' b'B' refl auc_id state ids states h.0 h.1 enough
          (codes "Your current bids:\n"))

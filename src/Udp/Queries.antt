-- ===== src/Udp/Queries.antt =====
-- `handle_myauctions`, `handle_mybids` and `handle_list`. The text in `status[9999]` only grows until it
-- is sent, so that its last length is the greatest; the list of `fetch_auctions` is shorter.
pub mod Laws
pub mod Missed
use auction_simulator.Prelude.{Option, none, some, [], ◌∷◌, ◌++◌, ◌==◌, drop, if◌then◌else◌}
use auction_simulator.Text.{Bytes, codes, newline}
use auction_simulator.Input.Udp.{read_uid_udp_final}
use auction_simulator.World.Monad.{M, ◌>>=◌, pure, gets, fitted}
use auction_simulator.World.Platform.{Platform}
use auction_simulator.Users.{is_user_login}
use auction_simulator.Auctions.Listing.{
  user_auc_status, user_bids_status, append_auctions, exists_auctions,
}

-- `sprintf(status, "RMA NOK")` starts the reply anew.
abbrev pub or_nok : Bytes → Option Bytes → Bytes
or_nok nok none = nok ++ newline ∷ []
or_nok nok (some status) = status ++ newline ∷ []

module _ ⦃p : Platform⦄ where
  unfoldable pub handle_myauctions : Bytes → M Bytes
  handle_myauctions buffer = elim (read_uid_udp_final buffer) [
    | none ↦ pure (codes "RMA ERR\n")
    | some uid ↦ do
      logged ← gets (is_user_login uid)
      if logged
          then (do
            status ← user_auc_status uid (codes "RMA OK")
            fitted 9999 (or_nok (codes "RMA NOK") status))
          else pure (codes "RMA NLG\n")
  ]

  unfoldable pub handle_mybids : Bytes → M Bytes
  handle_mybids buffer = elim (read_uid_udp_final buffer) [
    | none ↦ pure (codes "RMB ERR\n")
    | some uid ↦ do
      logged ← gets (is_user_login uid)
      if logged
          then (do
            status ← user_bids_status uid (codes "RMB OK")
            fitted 9999 (or_nok (codes "RMB NOK") status))
          else pure (codes "RMB NLG\n")
  ]

  unfoldable pub list_all : M Bytes
  list_all = do
    exists ← gets exists_auctions
    if exists
        then (do status ← append_auctions (codes "RLS OK"); fitted 9999 status)
        else pure (codes "RLS NOK\n")

  -- `buffer[3] != '\n'`
  unfoldable pub handle_list : Bytes → M Bytes
  unfolding list_all
  handle_list buffer = elim (drop 3 buffer) [
    | [] ↦ pure (codes "RLS ERR\n")
    | c ∷ _ ↦ if c == newline then list_all else pure (codes "RLS ERR\n")
  ]

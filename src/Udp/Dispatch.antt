-- ===== src/Udp/Dispatch.antt =====
-- `handle_show_record`, and `process_udp_request` of server/server.c.
pub mod Laws
use auction_simulator.Prelude.{none, some, [], ◌∷◌, ◌++◌, not, if◌then◌else◌}
use auction_simulator.Text.{Bytes, codes, newline, same}
use auction_simulator.Text.Decimal.{atoi}
use auction_simulator.Input.Udp.{read_command_udp, read_aid_udp, CommandEnd, separated, ended}
use auction_simulator.World.Monad.{M, ◌>>=◌, pure, gets, fitted}
use auction_simulator.World.Platform.{Platform}
use auction_simulator.Auctions.Asset.{exists_auction}
use auction_simulator.Auctions.Record.{get_auc_info}
use auction_simulator.Udp.Session.{handle_login, handle_logout, handle_unregister}
use auction_simulator.Udp.Queries.{handle_myauctions, handle_mybids, handle_list}

module _ ⦃p : Platform⦄ where
  -- `status[9999]`: the text only grows until it is sent, so that its last length is the greatest.
  unfoldable pub show_record : Bytes → M Bytes
  show_record auc_id = do
    exists ← gets (exists_auction auc_id)
    if exists
        then (do
          status ← get_auc_info (atoi auc_id) (codes "RRC OK")
          fitted 9999 (status ++ newline ∷ []))
        else pure (codes "RRC NOK\n")

  unfoldable pub handle_show_record : Bytes → M Bytes
  handle_show_record buffer = elim (read_aid_udp buffer) [
    | none ↦ pure (codes "RRC ERR\n")
    | some auc_id ↦ show_record auc_id
  ]

  -- The chain of `strcmp` calls.
  unfoldable pub dispatch_udp : Bytes → Bytes → M Bytes
  unfolding same
  dispatch_udp command buffer =
      if same command (codes "LIN")
      then handle_login buffer
      else if same command (codes "LOU")
      then handle_logout buffer
      else if same command (codes "UNR")
      then handle_unregister buffer
      else if same command (codes "LMA")
      then handle_myauctions buffer
      else if same command (codes "LMB")
      then handle_mybids buffer
      else if same command (codes "LST")
      then handle_list buffer
      else if same command (codes "SRC")
      then handle_show_record buffer
      else pure (codes "ERR\n")

  -- A command that ends its line at once is refused unless it is "LST".
  unfoldable pub command_udp : Bytes → CommandEnd → Bytes → M Bytes
  command_udp command separated buffer = dispatch_udp command buffer
  command_udp command ended buffer =
      if not (same command (codes "LST")) then pure (codes "ERR\n") else dispatch_udp command buffer

  unfoldable pub process_udp_request : Bytes → M Bytes
  process_udp_request buffer = elim (read_command_udp buffer) [
    | none ↦ pure (codes "ERR\n")
    | some (command, how) ↦ command_udp command how buffer
  ]

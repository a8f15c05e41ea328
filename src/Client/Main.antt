-- ===== src/Client/Main.antt =====
-- `main` of client/client.c: the options, and a round of the loop.
pub mod Safe
pub mod Rounds
pub mod Accounts
use auction_simulator.Prelude.{
  ℕ, zero, suc, Bool, true, false, not, ◌||◌, ◌&&◌, Option, none, some, List, [], ◌∷◌, ◌++◌, ◌==◌,
  leb, length, if◌then◌else◌,
}
use auction_simulator.Text.{Bytes, codes, newline, same}
use auction_simulator.Text.Int.{ℤ}
use auction_simulator.Text.Scan.{scan_string}
use auction_simulator.World.Monad.{M, ◌>>=◌, pure}
use auction_simulator.World.Platform.{Platform}
use auction_simulator.Client.Network.{defined}
use auction_simulator.Client.Words.{scan_aid, scan_bid_input}
use auction_simulator.Client.Session.{Session, login_command, logout_command, unregister_command}
use auction_simulator.Client.Asset.{Files, show_asset}
use auction_simulator.Client.Connection.{Link}
use auction_simulator.Client.Open.{open_auction}
use auction_simulator.Client.Commands.{close_auction, bid, show_record}
use auction_simulator.Client.Lists.{list_all_auctions, my_auctions, my_bids}

-- The server's address and port; `invalid` ends the program, and `overrun` is an argument that does
-- not fit `IP[50]` or `port[10]`.
pub data Options : Type 0 where
  connect_to : Bytes → Bytes → Options
  invalid overrun : Options

abbrev pub local_server : Bytes
local_server = codes "localhost"

abbrev pub default_port : Bytes
default_port = codes "58063"

abbrev copied : Bytes → Bytes → Options
copied ip port = if leb (length ip) 49 && leb (length port) 9 then connect_to ip port else overrun

-- The `switch` on `argc`, by the arguments behind the program's name.
unfoldable pub options : List Bytes → Options
unfolding same
options [] = connect_to local_server default_port
options (flag ∷ v ∷ []) =
    if same flag (codes "-n")
    then copied v default_port
    else if same flag (codes "-p")
    then copied local_server v
    else invalid
options (flag1 ∷ v1 ∷ flag2 ∷ v2 ∷ []) =
    if same flag1 (codes "-n") && same flag2 (codes "-p") then copied v1 v2 else invalid
options others = invalid

-- `fgets(input, n + 1, stdin)`, and the line end taken off.
unfoldable pub get_line : ℕ → Bytes → Bytes × Bytes
get_line zero s = ([], s)
get_line (suc n) [] = ([], [])
get_line (suc n) (c ∷ s) =
    let (line, rest) = get_line n s in if c == newline then ([], s) else (c ∷ line, rest)

abbrev input_behind : Bytes → Bytes → Option (Bytes × Bytes × Bytes)
unfolding get_line
input_behind command [] = none
input_behind command (c ∷ s) =
    if leb (length command) 11
    then (let (input, rest) = get_line 99 (c ∷ s) in some (command, input, rest))
    else none

-- The command, its input and what is left of stdin. `none`: stdin ends, which leaves old contents in the
-- arrays, or the word does not fit `command[12]`.
unfoldable pub next_command : Bytes → Option (Bytes × Bytes × Bytes)
unfolding scan_string input_behind
next_command stdin = elim (scan_string stdin) [
  | none ↦ none
  | some (command, rest) ↦ input_behind command rest
]

-- What the client keeps: the session, and the files of client/assets.
pub record Client : Type 0 where
  pub session : Session
  pub assets : Files

-- The round prints a text, and the loop goes on or breaks.
pub data Round : Type 0 where
  again : Client → Bytes → Round
  stopped : Round

abbrev pub not_logged_in : Bytes
not_logged_in = codes "You are not logged in.\n"

abbrev pub first_is : ℕ → Bytes → Bool
first_is c [] = false
first_is c (d ∷ s) = c == d

module _ ⦃p : Platform⦄ where
  -- A command that changes nothing of the client.
  abbrev pub shown : Client → M Bytes → M Round
  shown c m = do out ← m; pure (again c out)

  abbrev pub moved : Client → M (Session × Bytes) → M Round
  moved c m = do (session, out) ← m; pure (again (record c { session = session }) out)

  abbrev pub if_logged_in : Client → M Bytes → M Bytes
  if_logged_in c m = if not c.session.logged_in then pure not_logged_in else m

  unfoldable pub asset_command : Link → Bytes → Client → M Round
  unfolding scan_aid
  asset_command link input c = do
    aid ← defined (scan_aid input)
    (assets, out) ← show_asset link.sent link.got aid c.assets
    pure (again (record c { assets = assets }) out)

  -- `aid` and `value` are only used by a user who is logged in.
  unfoldable pub bid_command : Link → Files → Bytes → Session → M Bytes
  unfolding scan_bid_input
  bid_command link local_assets input s = do
    (aid, value) ← defined (scan_bid_input input)
    bid link local_assets s.uid s.password aid value

  unfoldable pub record_command : Bytes → M Bytes
  unfolding scan_aid
  record_command input = do aid ← defined (scan_aid input); show_record aid

  -- The chain of `strcmp` calls; `local_assets` are the files of client/local_assets.
  unfoldable pub run_command : Link → Files → Bytes → Bytes → Client → M Round
  unfolding same
  run_command link local_assets command input c =
      let s = c.session in
      if same command (codes "login")
      then moved c (login_command input s)
      else if same command (codes "logout")
      then moved c (logout_command s)
      else if same command (codes "unregister")
      then moved c (unregister_command s)
      else if same command (codes "exit")
      then (if s.logged_in
          then pure (again c (codes "You are still logged in. Please logout first.\n"))
          else pure stopped)
      else if same command (codes "open")
      then shown c (if_logged_in c (open_auction link local_assets s.uid s.password input))
      else if same command (codes "list") || first_is b'l' command
      then shown c list_all_auctions
      else if same command (codes "close")
      then shown c (if_logged_in c (close_auction link local_assets s.uid s.password input))
      else if same command (codes "myauctions") || same command (codes "ma")
      then shown c (if_logged_in c (my_auctions s.uid))
      else if same command (codes "mybids") || same command (codes "mb")
      then shown c (if_logged_in c (my_bids s.uid))
      else if same command (codes "show_asset") || same command (codes "sa")
      then asset_command link input c
      else if same command (codes "bid") || first_is b'b' command
      then shown c (if_logged_in c (bid_command link local_assets input s))
      else if same command (codes "show_record") || same command (codes "sr")
      then shown c (record_command input)
      else pure (again c (codes "invalid command!\n"))

  -- The rounds of the loop, one for each link: what is printed, the client, and whether it has stopped.
  unfoldable pub run_client : List Link → Files → Bytes → Client → M (Bool × Client × Bytes)
  unfolding next_command
  run_client [] local_assets stdin c = pure (false, c, [])
  run_client (link ∷ links) local_assets stdin c = do
    (command, input, rest) ← defined (next_command stdin)
    round ← run_command link local_assets command input c
    elim round as (λ _. M (Bool × Client × Bytes)) [
      | stopped ↦ pure (true, c, [])
      | again c' out ↦ do
        (done, last, printed) ← run_client links local_assets rest c'
        pure (done, last, out ++ printed)
    ]

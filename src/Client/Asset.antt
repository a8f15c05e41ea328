-- ===== src/Client/Asset.antt =====
-- `showAsset` of client/functions.c, with `read_field` and `read_file` of client/aux_functions.c: the
-- reply is read from a connection in pieces, as in the server.
pub mod Laws
pub mod Stores
use auction_simulator.Prelude.{
  ℕ, zero, suc, ◌+◌, ◌-◌, Bool, true, false, not, ◌&&◌, ◌||◌, Option, none, some, List, [], ◌∷◌,
  ◌++◌, ◌==◌, length, take, if◌then◌else◌,
}
use auction_simulator.Text.{Bytes, codes, newline, blank, all, same}
use auction_simulator.Text.Decimal.{atoi}
use auction_simulator.Text.Int.{ℤ}
use auction_simulator.World.Dir.{put}
use auction_simulator.World.Monad.{M, ◌>>=◌}
use auction_simulator.World.Platform.{Platform}
use auction_simulator.Socket.{Socket, read, store_file}
use auction_simulator.Tcp.Dispatch.{process_tcp_request}
use auction_simulator.Client.Buffer.{starts}
use auction_simulator.Client.Listing.{unread}
use auction_simulator.Client.Network.{defined}
use auction_simulator.Client.Requests.{show_asset_request}

-- The result of `read_field`: the text and the bytes behind it; 0; or a byte written behind the array.
pub data Got : Type 0 where
  text : Bytes → Socket → Got
  missing overrun : Got

-- The loop, by the rounds left, into an array of `room` bytes. `first_read` is 0, so that no text is
-- refused for a space in front. The last byte read gives way to the NUL, a space or not.
unfoldable pub field_rounds : ℕ → ℕ → Bytes → Socket → Got
unfolding read
field_rounds zero room buffer s = text (take (length buffer - 1) buffer) s
field_rounds (suc n) room buffer s =
    let (got, s') = read 1 s in
    elim got [
      | [] ↦ missing
      | c ∷ _ ↦
          let rest = field_rounds n room (buffer ++ c ∷ []) s' in
          if length buffer == room then overrun else if c == blank then text buffer s' else rest
    ]

-- `while (bytes_read <= size)` makes size + 1 rounds at most.
unfoldable pub read_field : ℕ → ℕ → Socket → Got
unfolding field_rounds
read_field size room s = field_rounds (size + 1) room [] s

-- The files of client/assets.
abbrev pub Files : Type 0
Files = List (Bytes × Bytes)

-- Names that `fopen(path, "w")` makes a file of, where client/assets has no directories in it.
unfoldable pub can_open : Bytes → Bool
unfolding all same
can_open name =
    all (λ c. not (c == b'/')) name
    && not (same name [] || (same name (codes ".") || same name (codes "..")))

-- `read_file`: the loop is that of the server's `store_file`. What it returns is not used.
unfoldable pub read_file : ℕ → Bytes → Socket → Files → Files
read_file size name s files =
    if can_open name then put name (store_file size s).file files else files

abbrev pub stored_text : Bytes → Bytes → Bytes
stored_text name size =
    codes "Asset "
    ++ (name
        ++ (codes " with size " ++ (size ++ codes " succesfully stored in the assets folder!\n")))

-- The two fields behind "OK"; the size begins with a digit.
abbrev pub keep_asset : Bytes → Files → Got → Option (Files × Bytes)
unfolding atoi
keep_asset name files (text size s) =
    some (read_file (atoi size) name s files, stored_text name size)
keep_asset name files missing = some (files, unread)
keep_asset name files overrun = none

abbrev pub named_asset : Files → Got → Option (Files × Bytes)
named_asset files (text name s) = keep_asset name files (read_field 9 9 s)
named_asset files missing = some (files, unread)
named_asset files overrun = none

abbrev pub by_status : Bytes → Files → Got → Option (Files × Bytes)
by_status status1 files (text status2 s) =
    if starts (codes "NOK") status2
    then some (files, codes "Error showing asset: no such auction.\n")
    else if starts (codes "OK") status2
    then named_asset files (read_field 25 25 s)
    else if starts (codes "ERR") status2
    then some (files, codes "Server responded with an error when trying to show asset.\n")
    else some (files, codes "Badly formatted server response: " ++ (status1 ++ newline ∷ []))
by_status status1 files missing = some (files, unread)
by_status status1 files overrun = none

abbrev pub asset_fields : Files → Got → Option (Files × Bytes)
asset_fields files (text status1 s) = by_status status1 files (read_field 3 5 s)
asset_fields files missing = some (files, unread)
asset_fields files overrun = none

-- What `showAsset` does with the reply.
unfoldable pub asset_answer : Socket → Files → Option (Files × Bytes)
asset_answer s files = asset_fields files (read_field 3 5 s)

module _ ⦃p : Platform⦄ where
  -- `sent` and `got` are the pieces in which the request and the reply arrive.
  unfoldable pub show_asset : List ℕ → List ℕ → ℤ → Files → M (Files × Bytes)
  show_asset sent got aid files = do
    reply ← process_tcp_request (record { input = show_asset_request aid; limits = sent })
    defined (asset_answer (record { input = reply; limits = got }) files)

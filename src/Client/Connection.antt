-- ===== src/Client/Connection.antt =====
-- `connect_TCP` of client/aux_functions.c with the server at the other end: the connection is made, the
-- request and the file arrive whole, and each side reads in pieces.
use auction_simulator.Prelude.{
  ℕ, zero, suc, ◌-◌, Option, none, some, List, [], ◌∷◌, ◌++◌, take, if◌then◌else◌,
}
use auction_simulator.Text.{Bytes, codes, newline}
use auction_simulator.World.Dir.{find}
use auction_simulator.World.Monad.{M, ◌>>=◌, pure}
use auction_simulator.World.Platform.{Platform}
use auction_simulator.Socket.{Socket, read}
use auction_simulator.Tcp.Dispatch.{process_tcp_request}
use auction_simulator.Client.Buffer.{starts}
use auction_simulator.Client.Network.{defined}
use auction_simulator.Client.Words.{scan_upload}
use auction_simulator.Client.Asset.{Files}

-- The pieces in which the request and the reply arrive.
pub record Link : Type 0 where
  pub sent : List ℕ
  pub got : List ℕ

-- What `sendfile` sends of the file, if there is one.
abbrev contents : ℕ → Option Bytes → Bytes
contents size none = []
contents size (some content) = take size content

-- The bytes behind the request: the file and a line end with "OPA".
unfoldable pub upload : Files → Bytes → Option Bytes
unfolding starts scan_upload
upload local_assets request =
    if starts (codes "OPA") request
    then elim (scan_upload request) [
      | none ↦ none
      | some (asset_fname, fsize) ↦
          some (contents fsize (find asset_fname local_assets) ++ newline ∷ [])
    ]
    else some []

-- The four reads of a byte with "SAS"; at the end of the stream they never end.
unfoldable pub skip_bytes : ℕ → Socket → Option Socket
unfolding read
skip_bytes zero s = some s
skip_bytes (suc n) s = let (got, s') = read 1 s in elim got [ [] ↦ none | _ ∷ _ ↦ skip_bytes n s' ]

unfoldable pub reply_at : Bytes → Socket → Option Socket
unfolding starts skip_bytes
reply_at request s = if starts (codes "SAS") request then skip_bytes 4 s else some s

module _ ⦃p : Platform⦄ where
  -- One `read` takes the reply, or what has come of it.
  unfoldable pub connect_tcp : ℕ → Link → Files → Bytes → M Bytes
  unfolding upload reply_at read
  connect_tcp buffer_size link local_assets request = do
    behind ← defined (upload local_assets request)
    reply ← process_tcp_request (record { input = request ++ behind; limits = link.sent })
    s ← defined (reply_at request (record { input = reply; limits = link.got }))
    pure (read (buffer_size - 1) s).0

-- ===== src/Client/Words.antt =====
-- The `sscanf` calls of the client on what the user types, and on its own request. `none`: a variable
-- stays unset, or a word is written past the end of its array.
use auction_simulator.Prelude.{ℕ, Option, none, some, leb, length, drop, if◌then◌else◌}
use auction_simulator.Text.{Bytes}
use auction_simulator.Text.Int.{ℤ}
use auction_simulator.Text.Scan.{scan_string, scan_nat}
use auction_simulator.Text.Pad.{scan_d}
use auction_simulator.Tcp.Fields.{◌>>=◌}

-- "%s" into an array of `size + 1` bytes.
abbrev word : ℕ → Bytes → Option (Bytes × Bytes)
unfolding scan_string
word size s = do
  (text, rest) ← scan_string s
  if leb (length text) size then some (text, rest) else none

-- "OPA %*s %*s %*s %*d %*d %s %d", on a request that begins with "OPA": the name and size of the asset.
unfoldable pub scan_upload : Bytes → Option (Bytes × ℕ)
unfolding scan_string scan_d scan_nat word
scan_upload request = do
  (_, s) ← scan_string (drop 3 request)
  (_, s) ← scan_string s
  (_, s) ← scan_string s
  (_, s) ← scan_d s
  (_, s) ← scan_d s
  (asset_fname, s) ← word 24 s
  (fsize, _) ← scan_nat s
  some (asset_fname, fsize)

-- What `openAuction` reads: "%s %s %d %d"
pub record OpenInput : Type 0 where
  pub name : Bytes
  pub asset_fname : Bytes
  pub start_value : ℤ
  pub timeactive : ℤ

unfoldable pub scan_open_input : Bytes → Option OpenInput
unfolding scan_d word
scan_open_input input = do
  (name, s) ← word 10 input
  (asset_fname, s) ← word 24 s
  (start_value, s) ← scan_d s
  (timeactive, _) ← scan_d s
  some (record {
    name = name;
    asset_fname = asset_fname;
    start_value = start_value;
    timeactive = timeactive;
  })

-- "%d"
unfoldable pub scan_aid : Bytes → Option ℤ
unfolding scan_d
scan_aid input = do (aid, _) ← scan_d input; some aid

-- "%d %d"
unfoldable pub scan_bid_input : Bytes → Option (ℤ × ℤ)
unfolding scan_d
scan_bid_input input = do (aid, s) ← scan_d input; (value, _) ← scan_d s; some (aid, value)

-- ===== src/Client/Open.antt =====
-- `openAuction` of client/functions.c, with `valid_filename` and `getFileSize` of client/aux_functions.c.
-- client/local_assets holds files only, of less than 2 GB.
pub mod Checks
pub mod Laws
pub mod Sends
use auction_simulator.Prelude.{
  ℕ, Bool, true, false, not, ◌&&◌, ◌||◌, Option, none, some, [], ◌∷◌, ◌==◌, ltb, leb, length,
  if◌then◌else◌,
}
use auction_simulator.Text.{Bytes, codes, all, is_alpha, is_alnum}
use auction_simulator.Text.Int.{ℤ, pos, negsuc}
use auction_simulator.World.Dir.{find}
use auction_simulator.World.Monad.{M, ◌>>=◌, pure}
use auction_simulator.World.Platform.{Platform}
use auction_simulator.Client.Asset.{Files}
use auction_simulator.Client.Words.{OpenInput, scan_open_input}
use auction_simulator.Client.Network.{defined}
use auction_simulator.Client.Connection.{Link, connect_tcp}
use auction_simulator.Client.Requests.{open_request}
use auction_simulator.Client.Answers.{open_answer}

-- `strspn` with the letters, the digits and "-_.".
abbrev pub is_fname_char : ℕ → Bool
is_fname_char c = is_alnum c || (c == b'-' || (c == b'_' || c == b'.'))

-- `strrchr(filename, '.')`: the text behind the last dot.
unfoldable pub extension : Bytes → Option Bytes
extension [] = none
extension (c ∷ s) = elim (extension s) [
  | none ↦ if c == b'.' then some s else none
  | some t ↦ some t
]

abbrev three_letters : Option Bytes → Bool
unfolding all
three_letters none = false
three_letters (some t) = length t == 3 && all is_alpha t

unfoldable pub valid_filename : Bytes → Bool
unfolding all extension three_letters
valid_filename filename =
    not (ltb 24 (length filename))
    && (all is_fname_char filename && three_letters (extension filename))

abbrev size_of : Option Bytes → Option ℕ
size_of none = none
size_of (some []) = none
size_of (some (c ∷ content)) = some (length (c ∷ content))

-- -1 is `none`.
unfoldable pub get_file_size : Files → Bytes → Option ℕ
unfolding find
get_file_size local_assets name = size_of (find name local_assets)

abbrev negative : ℤ → Bool
negative (pos n) = false
negative (negsuc n) = true

abbrev above : ℕ → ℤ → Bool
above most (pos n) = ltb most n
above most (negsuc n) = false

-- The tests before the request; a text is the refusal.
unfoldable pub open_refusal : ℕ → OpenInput → Option Bytes
unfolding valid_filename
open_refusal fsize i =
    if ltb 10_000_000 fsize
    then some (codes "File size exceeds allowed limit.\n")
    else if ltb 10 (length i.name)
    then some (codes "Invalid open attempt: auction description name too long.\n")
    else if not (valid_filename i.asset_fname)
    then some (codes "Invalid open attempt: asset filename is invalid.\n")
    else if negative i.start_value || negative i.timeactive
    then some (
        codes
          "Invalid open attempt: minimum selling value for the asset and auction duration cannot be negative.\n")
    else if above 99_999 i.timeactive
    then some (codes "Invalid open attempt: auction duration is too large.\n")
    else none

module _ ⦃p : Platform⦄ where
  unfoldable pub open_with : Link → Files → Bytes → Bytes → OpenInput → ℕ → M Bytes
  unfolding open_request open_answer
  open_with link local_assets uid password i fsize = elim (open_refusal fsize i) as (λ _. M Bytes) [
    | some refusal ↦ pure refusal
    | none ↦ do
      buffer ←
          connect_tcp 1024 link local_assets
            (open_request uid password i.name i.start_value i.timeactive i.asset_fname fsize)
      defined (open_answer buffer)
  ]

  unfoldable pub open_auction : Link → Files → Bytes → Bytes → Bytes → M Bytes
  unfolding scan_open_input get_file_size
  open_auction link local_assets uid password input = do
    i ← defined (scan_open_input input)
    elim (get_file_size local_assets i.asset_fname) as (λ _. M Bytes) [
      | none ↦ pure (codes "Error opening file; couldn't get file size.\n")
      | some fsize ↦ open_with link local_assets uid password i fsize
    ]

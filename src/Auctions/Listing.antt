-- ===== src/Auctions/Listing.antt =====
-- The lists of auctions with their states: `append_auctions`, `user_auc_status` and
-- `user_bids_status`, over `scandir` with `alphasort`.
pub mod Laws
pub mod Length
pub mod Order
use auction_simulator.Prelude.{
  ℕ, ◌-◌, Bool, true, false, Option, none, some, List, [], ◌∷◌, ◌++◌, ltb, ◌==◌, length, take, not,
  ◌||◌, if◌then◌else◌,
}
use auction_simulator.Text.{Bytes, codes, blank, newline, same}
use auction_simulator.Text.Decimal.{atoi}
use auction_simulator.World.{World, UserDir}
use auction_simulator.World.Dir.{find, names}
use auction_simulator.World.Monad.{M, ◌>>=◌, ◌>>◌, pure, gets}
use auction_simulator.World.Platform.{Platform}
use auction_simulator.Auctions.Lifecycle.{ongoing_auction}

-- `strcmp(s, t) <= 0`; `alphasort` compares so in the C locale.
unfoldable pub precedes : Bytes → Bytes → Bool
precedes [] t = true
precedes (c ∷ s) [] = false
precedes (c ∷ s) (d ∷ t) = if ltb c d then true else if c == d then precedes s t else false

unfoldable pub insert : Bytes → List Bytes → List Bytes
unfolding precedes
insert name [] = name ∷ []
insert name (other ∷ rest) =
    if precedes name other then name ∷ other ∷ rest else other ∷ insert name rest

-- What the C library leaves at `scandir(path, …, NULL, alphasort)`: the names in order.
unfoldable pub scandir : List Bytes → List Bytes
unfolding insert
scandir [] = []
scandir (name ∷ rest) = insert name (scandir rest)

-- The name without ".txt", cut to the three bytes that `auc_id` holds.
abbrev pub strip : Bytes → Bytes
strip name = take 3 (take (length name - 4) name)

unfoldable pub strip_all : List Bytes → List Bytes
strip_all [] = []
strip_all (name ∷ rest) = strip name ∷ strip_all rest

-- `strtok` splits the text that the C function builds at its spaces into these parts again.
unfoldable pub fetch_auctions : List Bytes → List Bytes
unfolding scandir strip_all
fetch_auctions entries = strip_all (scandir entries)

abbrev pub flag : Bool → Bytes
flag true = codes " 1"
flag false = codes " 0"

abbrev pub hosted_names : Option UserDir → List Bytes
hosted_names none = []
hosted_names (some u) = u.hosted

abbrev pub bidded_names : Option UserDir → List Bytes
bidded_names none = []
bidded_names (some u) = u.bidded

module _ ⦃p : Platform⦄ where
  -- The loop of the three functions below: the identifiers, each with its state.
  unfoldable pub append_states : List Bytes → Bytes → M Bytes
  append_states [] status = pure status
  append_states (auc_id ∷ rest) status = do
    ongoing ← ongoing_auction (atoi auc_id)
    append_states rest (status ++ blank ∷ auc_id ++ flag ongoing)

  -- `none` is the result 0: the directory is empty or not there.
  unfoldable pub status_of : List Bytes → Bytes → M (Option Bytes)
  status_of [] status = pure none
  status_of (name ∷ rest) status = do
    listed ← append_states (fetch_auctions (name ∷ rest)) status
    pure (some listed)

  unfoldable pub user_auc_status : Bytes → Bytes → M (Option Bytes)
  user_auc_status uid status = do
    entries ← gets (λ w. hosted_names (find uid w.users))
    status_of entries status

  unfoldable pub user_bids_status : Bytes → Bytes → M (Option Bytes)
  user_bids_status uid status = do
    entries ← gets (λ w. bidded_names (find uid w.users))
    status_of entries status

  unfoldable pub append_auctions : Bytes → M Bytes
  append_auctions status = do
    entries ← gets (λ w. names w.auctions)
    listed ← append_states (scandir entries) status
    pure (listed ++ newline ∷ [])

abbrev pub is_dots : Bytes → Bool
is_dots name = same name (b'.' ∷ []) || same name (b'.' ∷ b'.' ∷ [])

-- The loop of `exists_auctions`.
unfoldable pub some_name : List Bytes → Bool
some_name [] = false
some_name (name ∷ rest) = if not (is_dots name) then true else some_name rest

-- The first entry is read before the loop, and not looked at again.
abbrev pub behind_first : List Bytes → List Bytes
behind_first [] = []
behind_first (first ∷ rest) = rest

module _ ⦃p : Platform⦄ where
  unfoldable pub exists_auctions : World → Bool
  exists_auctions w = some_name (behind_first (p.listed (names w.auctions)))

-- ===== src/World.antt =====
-- What the server keeps: the directories `server/users` and `server/auctions`, and the clock.
-- A directory is the list of its entries without "." and "..", a file the bytes that it holds.
-- Opening a file for writing fails only where its directory does not exist.
pub mod Dir
pub mod Monad
pub mod Ends
pub mod Mights
pub mod Platform
use auction_simulator.Prelude.{ℕ, Bool, Option, List}
use auction_simulator.Text.{Bytes}

-- `server/users/<uid>`: the names in `hosted` and in `bidded`, whose files are empty, `pass.txt`, and
-- whether the empty `login.txt` is there. `create_user` makes both directories with the user's own.
pub record UserDir : Type 0 where
  pub hosted : List Bytes
  pub bidded : List Bytes
  pub pass : Option Bytes
  pub login : Bool

-- `server/auctions/<aid>`: the files in `asset` and in `bids`, `START_<aid>.txt` and `END_<aid>.txt`.
pub record AuctionDir : Type 0 where
  pub asset : List (Bytes × Bytes)
  pub bids : List (Bytes × Bytes)
  pub start_file : Option Bytes
  pub end_file : Option Bytes

-- `now` is the last reading of the clock, and `ticks` holds the seconds that pass before each later
-- one, so that the clock does not go back.
pub record World : Type 0 where
  pub users : List (Bytes × UserDir)
  pub auctions : List (Bytes × AuctionDir)
  pub now : ℕ
  pub ticks : List ℕ

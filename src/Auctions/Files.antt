-- ===== src/Auctions/Files.antt =====
-- The texts of the START, END and bid files: what `fprintf` writes and `fscanf` reads.
pub mod Laws
use auction_simulator.Prelude.{ℕ, Option, none, some, ◌∷◌, ◌++◌}
use auction_simulator.Text.{Bytes, blank}
use auction_simulator.Text.Decimal.{print}
use auction_simulator.Text.Int.{ℤ, print_int, scan_int}
use auction_simulator.Text.Scan.{scan_string, scan_nat}
use auction_simulator.World.{World, AuctionDir}
use auction_simulator.World.Dir.{put}
use auction_simulator.World.Platform.{Platform}

infixl 5 ◌>>=◌
abbrev pub ◌>>=◌ {ℓ κ} : {A : Type ℓ} {B : Type κ} → Option A → (A → Option B) → Option B
none >>= f = none
some a >>= f = f a

-- The fields of `START_<aid>.txt`; the opening time is written twice, as a date and in seconds.
pub record Start : Type 0 where
  pub uid : Bytes
  pub name : Bytes
  pub asset_fname : Bytes
  pub start_value : ℕ
  pub timeactive : ℕ
  pub start_fulltime : ℕ

module _ ⦃p : Platform⦄ where
  -- "%s %s %s %d %d %s %ld"
  unfoldable pub start_text : Start → Bytes
  start_text s =
      s.uid
      ++ blank
        ∷ (s.name
            ++ blank
              ∷ (s.asset_fname
                  ++ blank
                    ∷ (print s.start_value
                        ++ blank
                          ∷ (print s.timeactive
                              ++ blank
                                ∷ (p.date s.start_fulltime
                                    ++ blank
                                      ∷ (p.hour s.start_fulltime
                                          ++ blank ∷ print s.start_fulltime))))))

  -- "%s %ld"
  unfoldable pub end_text : ℕ → ℤ → Bytes
  end_text closed seconds = p.date closed ++ blank ∷ (p.hour closed ++ blank ∷ print_int seconds)

  -- "%s %d %s %ld"
  unfoldable pub bid_text : Bytes → ℕ → ℕ → ℤ → Bytes
  bid_text uid bid_value placed seconds =
      uid
      ++ blank
        ∷ (print bid_value
            ++ blank ∷ (p.date placed ++ blank ∷ (p.hour placed ++ blank ∷ print_int seconds)))

-- `%*s`
abbrev skip : Bytes → Option Bytes
skip s = scan_string s >>= λ (_, rest). some rest

-- "%*s %*s %*s %*s %ld %*s %*s %ld": timeactive and start_fulltime, for `ongoing_auction`
unfoldable pub scan_times : Bytes → Option (ℕ × ℕ)
scan_times s = do
  s ← skip s
  s ← skip s
  s ← skip s
  s ← skip s
  (timeactive, s) ← scan_nat s
  s ← skip s
  s ← skip s
  (start_fulltime, s) ← scan_nat s
  some (timeactive, start_fulltime)

-- "%*s %*s %*s %d %*s %*s %*s %ld": start_value and start_fulltime, for `bid_accepted`
unfoldable pub scan_floor : Bytes → Option (ℕ × ℕ)
scan_floor s = do
  s ← skip s
  s ← skip s
  s ← skip s
  (start_value, s) ← scan_nat s
  s ← skip s
  s ← skip s
  s ← skip s
  (start_fulltime, s) ← scan_nat s
  some (start_value, start_fulltime)

-- "%*s %*s %*s %*s %*s %*s %*s %ld": start_fulltime, for `close_auction`
unfoldable pub scan_opened : Bytes → Option ℕ
scan_opened s = do
  s ← skip s
  s ← skip s
  s ← skip s
  s ← skip s
  s ← skip s
  s ← skip s
  s ← skip s
  (start_fulltime, s) ← scan_nat s
  some start_fulltime

-- The variables that `get_auc_info` reads from a START file: "%s %s %s %d %ld %s %s %ld"
pub record StartFields : Type 0 where
  pub uid : Bytes
  pub name : Bytes
  pub asset_fname : Bytes
  pub start_value : ℕ
  pub timeactive : ℕ
  pub datetime1 : Bytes
  pub datetime2 : Bytes
  pub fulltime : ℕ

unfoldable pub scan_start : Bytes → Option StartFields
scan_start s = do
  (uid, s) ← scan_string s
  (name, s) ← scan_string s
  (asset_fname, s) ← scan_string s
  (start_value, s) ← scan_nat s
  (timeactive, s) ← scan_nat s
  (datetime1, s) ← scan_string s
  (datetime2, s) ← scan_string s
  (fulltime, s) ← scan_nat s
  some (record {
    uid = uid;
    name = name;
    asset_fname = asset_fname;
    start_value = start_value;
    timeactive = timeactive;
    datetime1 = datetime1;
    datetime2 = datetime2;
    fulltime = fulltime;
  })

-- "%s %d %s %s %ld", from a bid file
pub record BidFields : Type 0 where
  pub uid : Bytes
  pub bid_value : ℕ
  pub datetime1 : Bytes
  pub datetime2 : Bytes
  pub bidtime : ℤ

unfoldable pub scan_bid : Bytes → Option BidFields
scan_bid s = do
  (uid, s) ← scan_string s
  (bid_value, s) ← scan_nat s
  (datetime1, s) ← scan_string s
  (datetime2, s) ← scan_string s
  (bidtime, s) ← scan_int s
  some (record {
    uid = uid;
    bid_value = bid_value;
    datetime1 = datetime1;
    datetime2 = datetime2;
    bidtime = bidtime;
  })

-- "%s %s %ld", from an END file
pub record EndFields : Type 0 where
  pub datetime1 : Bytes
  pub datetime2 : Bytes
  pub end_sec_time : ℤ

unfoldable pub scan_end : Bytes → Option EndFields
scan_end s = do
  (datetime1, s) ← scan_string s
  (datetime2, s) ← scan_string s
  (end_sec_time, s) ← scan_int s
  some (record { datetime1 = datetime1; datetime2 = datetime2; end_sec_time = end_sec_time })

abbrev pub set_auction : Bytes → AuctionDir → World → World
set_auction name d w = record w { auctions = put name d w.auctions }

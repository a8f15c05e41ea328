-- ===== src/Auctions/Files/Laws.antt =====
-- What `fprintf` writes is read back by the `fscanf` calls of the other functions.
use auction_simulator.Prelude.{ℕ, ◌≡◌, some, ◌∷◌, ◌++◌}
use auction_simulator.Text.{Bytes, blank}
use auction_simulator.Text.Scan.{
  IsWord, scan_string, scan_string-field, scan_string-next, scan_number-next, scan_string-print,
  scan_number_last,
}
use auction_simulator.Text.Int.{ℤ, scan_int_last}
use auction_simulator.World.Platform.{Platform}
use auction_simulator.Auctions.Files.{
  Start, StartFields, start_text, end_text, bid_text, scan_start, scan_times, scan_floor,
  scan_opened, scan_bid, scan_end,
}

-- The texts of a START file can be read.
pub record IsReadable (s : Start) : Type 0 where
  pub uid : IsWord s.uid
  pub name : IsWord s.name
  pub asset_fname : IsWord s.asset_fname

module _ ⦃p : Platform⦄ where
  scan_date-field :
      (t : ℕ) (rest : Bytes)
      → scan_string (p.date t ++ blank ∷ rest) ≡ some (p.date t, blank ∷ rest)
  scan_date-field t rest = scan_string-field (p.date t) rest (p.date-IsWord t)

  scan_date-next :
      (t : ℕ) (rest : Bytes)
      → scan_string (blank ∷ (p.date t ++ blank ∷ rest)) ≡ some (p.date t, blank ∷ rest)
  scan_date-next t rest = scan_string-next (p.date t) rest (p.date-IsWord t)

  scan_hour-next :
      (t : ℕ) (rest : Bytes)
      → scan_string (blank ∷ (p.hour t ++ blank ∷ rest)) ≡ some (p.hour t, blank ∷ rest)
  scan_hour-next t rest = scan_string-next (p.hour t) rest (p.hour-IsWord t)

ruleset fields = (
  scan_string-field, scan_string-next, scan_number-next, scan_string-print, scan_number_last,
  scan_int_last, scan_date-field, scan_date-next, scan_hour-next,
)

module _ ⦃p : Platform⦄ (s : Start) (h : IsReadable s) where
  open h use {uid as uid_word, name as name_word, asset_fname as fname_word}

  pub scan_times-start_text : scan_times (start_text s) ≡ some (s.timeactive, s.start_fulltime)
  unfolding scan_times start_text
  scan_times-start_text = simp (fields, uid_word, name_word, fname_word)

  pub scan_floor-start_text : scan_floor (start_text s) ≡ some (s.start_value, s.start_fulltime)
  unfolding scan_floor start_text
  scan_floor-start_text = simp (fields, uid_word, name_word, fname_word)

  pub scan_opened-start_text : scan_opened (start_text s) ≡ some s.start_fulltime
  unfolding scan_opened start_text
  scan_opened-start_text = simp (fields, uid_word, name_word, fname_word)

  abbrev pub fields_of : StartFields
  fields_of = record {
    uid = s.uid;
    name = s.name;
    asset_fname = s.asset_fname;
    start_value = s.start_value;
    timeactive = s.timeactive;
    datetime1 = p.date s.start_fulltime;
    datetime2 = p.hour s.start_fulltime;
    fulltime = s.start_fulltime;
  }

  -- A START file whose texts are words is read back by get_auc_info field by field.
  pub scan_start-start_text : scan_start (start_text s) ≡ some fields_of
  unfolding scan_start start_text
  scan_start-start_text = simp (fields, uid_word, name_word, fname_word)

module _ ⦃p : Platform⦄ where
  -- A bid file whose uid is a word is read back by get_auc_info field by field, with a time that
  -- may be negative.
  pub scan_bid-bid_text :
      (uid : Bytes) (bid_value placed : ℕ) (seconds : ℤ)
      → IsWord uid
      → scan_bid (bid_text uid bid_value placed seconds)
        ≡ some (record {
          uid = uid;
          bid_value = bid_value;
          datetime1 = p.date placed;
          datetime2 = p.hour placed;
          bidtime = seconds;
        })
  unfolding scan_bid bid_text
  scan_bid-bid_text uid bid_value placed seconds h = simp (fields, h)

  -- An END file is read back by get_auc_info field by field, with a time that may be negative.
  pub scan_end-end_text :
      (closed : ℕ) (seconds : ℤ)
      → scan_end (end_text closed seconds)
        ≡ some (record {
          datetime1 = p.date closed;
          datetime2 = p.hour closed;
          end_sec_time = seconds;
        })
  unfolding scan_end end_text
  scan_end-end_text closed seconds = simp fields

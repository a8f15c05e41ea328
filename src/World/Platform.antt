-- ===== src/World/Platform.antt =====
-- What the server takes from the system besides the files: `localtime` with `strftime`, which depend
-- on the time zone, and the order in which `readdir` lists a directory.
use mathlib.Core.List.{Perm}
use auction_simulator.Prelude.{ℕ, List, [], ◌∷◌}
use auction_simulator.Text.{Bytes}
use auction_simulator.Text.Scan.{IsWord}

-- `listed` is the order of a whole directory, with its entries "." and "..". `readdir` is that of a
-- directory without them, where the source passes over them wherever they stand.
-- `strftime(…, "%Y-%m-%d %H:%M:%S", localtime(&t))` is the date, a space and the hour. `%Y-%m-%d` and `%H:%M:%S` write no white space.
pub record Platform : Type 0 where
  pub date : ℕ → Bytes
  pub hour : ℕ → Bytes
  pub readdir : List (Bytes × Bytes) → List (Bytes × Bytes)
  pub listed : List Bytes → List Bytes
  pub date-IsWord : (t : ℕ) → IsWord (date t)
  pub hour-IsWord : (t : ℕ) → IsWord (hour t)
  pub readdir-perm : (entries : List (Bytes × Bytes)) → Perm (readdir entries) entries
  pub listed-perm :
      (names : List Bytes) → Perm (listed names) ((b'.' ∷ []) ∷ (b'.' ∷ b'.' ∷ []) ∷ names)

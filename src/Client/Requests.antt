-- ===== src/Client/Requests.antt =====
-- The requests of client/functions.c, as the `snprintf` calls write them.
pub mod Numbers
pub mod Laws
pub mod Admitted
pub mod Received
use auction_simulator.Prelude.{ℕ, ◌∷◌, [], ◌++◌, take}
use auction_simulator.Text.{Bytes, codes, newline, blank}
use auction_simulator.Text.Decimal.{print}
use auction_simulator.Text.Int.{ℤ, pos, print_int}
use auction_simulator.Text.Pad.{print_padded, print_right, snprintf}

-- "LIN %s %s\n"
unfoldable pub login_request : Bytes → Bytes → Bytes
login_request uid password =
    snprintf 100 (codes "LIN " ++ (uid ++ blank ∷ (password ++ newline ∷ [])))

-- "LOU %s %s\n"
unfoldable pub logout_request : Bytes → Bytes → Bytes
logout_request uid password =
    snprintf 100 (codes "LOU " ++ (uid ++ blank ∷ (password ++ newline ∷ [])))

-- "UNR %s %s\n"
unfoldable pub unregister_request : Bytes → Bytes → Bytes
unregister_request uid password =
    snprintf 100 (codes "UNR " ++ (uid ++ blank ∷ (password ++ newline ∷ [])))

-- "OPA %s %s %s %d %d %s %d "
unfoldable pub open_request : Bytes → Bytes → Bytes → ℤ → ℤ → Bytes → ℕ → Bytes
unfolding print_int
open_request uid password name start_value timeactive asset_fname fsize = snprintf 100 (
    codes "OPA "
    ++ (uid
        ++ blank
          ∷ (password
              ++ blank
                ∷ (name
                    ++ blank
                      ∷ (print_int start_value
                          ++ blank
                            ∷ (print_int timeactive
                                ++ blank
                                  ∷ (asset_fname ++ blank ∷ (print fsize ++ blank ∷ []))))))))

-- "CLS %6s %8s %03d\n"
unfoldable pub close_request : Bytes → Bytes → ℤ → Bytes
unfolding print_right print_padded
close_request uid password aid = snprintf 25 (
    codes "CLS "
    ++ (print_right 6 uid
        ++ blank ∷ (print_right 8 password ++ blank ∷ (print_padded 3 aid ++ newline ∷ []))))

-- "BID %6s %8s %03d %06d\n"
unfoldable pub bid_request : Bytes → Bytes → ℤ → ℤ → Bytes
unfolding print_right print_padded
bid_request uid password aid value = snprintf 32 (
    codes "BID "
    ++ (print_right 6 uid
        ++ blank
          ∷ (print_right 8 password
              ++ blank ∷ (print_padded 3 aid ++ blank ∷ (print_padded 6 value ++ newline ∷ [])))))

-- "SAS %03d\n"
unfoldable pub show_asset_request : ℤ → Bytes
unfolding print_padded
show_asset_request aid = snprintf 10 (codes "SAS " ++ (print_padded 3 aid ++ newline ∷ []))

-- "SRC %03d\n"
unfoldable pub show_record_request : ℤ → Bytes
unfolding print_padded
show_record_request aid = snprintf 10 (codes "SRC " ++ (print_padded 3 aid ++ newline ∷ []))

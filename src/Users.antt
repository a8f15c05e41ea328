-- ===== src/Users.antt =====
-- The functions of server/aux_functions.c on the directory of one user.
pub mod Laws
use auction_simulator.Prelude.{Bool, true, false, not, Option, none, some, List, if◌then◌else◌, []}
use auction_simulator.Text.{Bytes, same}
use auction_simulator.Text.Scan.{scan_string}
use auction_simulator.World.{World, UserDir}
use auction_simulator.World.Dir.{find, put}
use auction_simulator.World.Monad.{M, ◌>>=◌, ◌>>◌, pure, crash, gets}

-- The directory after the three `mkdir` calls, which leave one that exists as it is.
abbrev pub made : Option UserDir → UserDir
made none = record { hosted = []; bidded = []; pass = none; login = false }
made (some u) = u

abbrev pub set_user : Bytes → UserDir → World → World
set_user uid u w = record w { users = put uid u w.users }

-- The directory is there by then, so that both files can be opened.
unfoldable pub create_user : Bytes → Bytes → M Bool
create_user uid password w =
    let u = made (find uid w.users) in
    some (true, set_user uid (record u { pass = some password; login = true }) w)

abbrev has_pass : Option UserDir → Bool
has_pass none = false
has_pass (some u) = elim u.pass [ none ↦ false | some _ ↦ true ]

unfoldable pub verify_user_exists : Bytes → World → Bool
verify_user_exists uid w = has_pass (find uid w.users)

abbrev has_login : Option UserDir → Bool
has_login none = false
has_login (some u) = u.login

unfoldable pub is_user_login : Bytes → World → Bool
is_user_login uid w = has_login (find uid w.users)

-- With no directory, `fopen` returns a null stream twice and `fclose` is called on it.
unfoldable pub change_user_login : Bytes → M (Unit {0})
change_user_login uid w = elim (find uid w.users) [
  | none ↦ none
  | some u ↦ some (tt, set_user uid (record u { login = not u.login }) w)
]

-- The text of `pass.txt`. With no such file, `fclose` is called on a null stream.
abbrev open_pass : Option UserDir → M Bytes
open_pass none = crash
open_pass (some u) = elim u.pass [ none ↦ crash | some text ↦ pure text ]

-- On an empty file `correct_pass` stays unset.
unfoldable pub verify_password_correct : Bytes → Bytes → M Bool
verify_password_correct uid password = do
  found ← gets (λ w. find uid w.users)
  text ← open_pass found
  elim (scan_string text) [ none ↦ crash | some (correct, _) ↦ pure (same correct password) ]

unfoldable pub delete_user : Bytes → M (Unit {0})
delete_user uid w = elim (find uid w.users) [
  | none ↦ some (tt, w)
  | some u ↦ some (tt, set_user uid (record u { pass = none; login = false }) w)
]

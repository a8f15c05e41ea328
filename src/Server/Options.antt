-- ===== src/Server/Options.antt =====
-- The arguments of the server: the `switch` on `argc` of server/server.c.
use auction_simulator.Prelude.{Bool, true, false, ◌&&◌, ◌≡◌, refl, List, [], ◌∷◌, if◌then◌else◌}
use auction_simulator.Text.{Bytes, codes, same}

-- The port and `verbose_mode`; `invalid` ends the program. `as_port` points to the text of PORT, so that
-- `strcpy` to it is undefined behaviour: `fault`.
pub data Options : Type 0 where
  listen_on : Bytes → Bool → Options
  invalid fault : Options

abbrev pub port : Bytes
port = codes "58063"

unfoldable pub options : List Bytes → Options
unfolding same
options [] = listen_on port false
options (flag ∷ []) = if same flag (codes "-v") then listen_on port true else invalid
options (flag ∷ v ∷ []) = if same flag (codes "-p") then fault else invalid
options (flag1 ∷ v ∷ flag2 ∷ []) =
    if same flag1 (codes "-p") && same flag2 (codes "-v") then fault else invalid
options others = invalid

-- A server that is given its port with "-p" does not start.
options_port : (v : Bytes) → options (codes "-p" ∷ v ∷ []) ≡ fault
unfolding options
options_port v = refl

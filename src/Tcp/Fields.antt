-- ===== src/Tcp/Fields.antt =====
-- The two tests of `read_field` that the handlers make, with the string in the buffer that a field
-- fills: a field may hold a NUL, and the functions that use it stop there.
use auction_simulator.Prelude.{ℕ, Option, none, some}
use auction_simulator.Text.{Bytes, c_string}
use auction_simulator.Socket.{Socket, Field, FieldEnd, more, last, failed, read_field}

infixl 5 ◌>>=◌
abbrev pub ◌>>=◌ {ℓ κ} : {A : Type ℓ} {B : Type κ} → Option A → (A → Option B) → Option B
none >>= f = none
some a >>= f = f a

abbrev pub go_on : FieldEnd → Field → Option (Bytes × Socket)
go_on (more n) f = some (c_string f.buffer, f.socket)
go_on last f = none
go_on failed f = none

abbrev pub stop : FieldEnd → Field → Option Bytes
stop (more n) f = none
stop last f = some (c_string f.buffer)
stop failed f = none

-- `read_field(…) < 1` is the refusal.
unfoldable pub inner : ℕ → Socket → Option (Bytes × Socket)
unfolding read_field
inner size s = let f = read_field size s in go_on f.returned f

-- `read_field(…) != -1` is the refusal.
unfoldable pub final : ℕ → Socket → Option Bytes
unfolding read_field
final size s = let f = read_field size s in stop f.returned f

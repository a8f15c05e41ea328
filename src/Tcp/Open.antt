-- ===== src/Tcp/Open.antt =====
-- `handle_open`.
pub mod Laws
use auction_simulator.Prelude.{ℕ, Option, none, some, ◌∷◌, [], ◌++◌, ◌==◌, if◌then◌else◌}
use auction_simulator.Text.{Bytes, codes, newline}
use auction_simulator.Text.Decimal.{atoi, print3}
use auction_simulator.Socket.{Socket}
use auction_simulator.Input.Verify.{verify_open_args}
use auction_simulator.World.Monad.{M, ◌>>=◌, ◌>>◌, pure, gets}
use auction_simulator.World.Platform.{Platform}
use auction_simulator.Users.{verify_user_exists, verify_password_correct, is_user_login}
use auction_simulator.Auctions.Create.{create_auction}
use auction_simulator.Tcp.Fields
use auction_simulator.Tcp.Fields.{inner}

pub record OpenArgs : Type 0 where
  pub uid : Bytes
  pub password : Bytes
  pub name : Bytes
  pub start_value : Bytes
  pub timeactive : Bytes
  pub asset_fname : Bytes
  pub fsize : Bytes

unfoldable pub read_open : Socket → Option (OpenArgs × Socket)
unfolding inner
read_open s = Fields.◌>>=◌ (inner 6 s) λ (uid, s). Fields.◌>>=◌ (inner 8 s) λ (password, s).
    Fields.◌>>=◌ (inner 10 s) λ (name, s). Fields.◌>>=◌ (inner 6 s) λ (start_value, s).
      Fields.◌>>=◌ (inner 5 s) λ (timeactive, s). Fields.◌>>=◌ (inner 24 s) λ (asset_fname, s).
        Fields.◌>>=◌ (inner 8 s) λ (fsize, s). some (
          record {
            uid = uid;
            password = password;
            name = name;
            start_value = start_value;
            timeactive = timeactive;
            asset_fname = asset_fname;
            fsize = fsize;
          },
          s,
        )

module _ ⦃p : Platform⦄ where
  -- "ROA OK %03d\n", or "ROA NOK\n" for the identifier 0
  abbrev open_reply : ℕ → Bytes
  open_reply auction_id =
      if auction_id == 0
      then codes "ROA NOK\n"
      else codes "ROA OK " ++ print3 auction_id ++ newline ∷ []

  unfoldable pub open_auction : OpenArgs → Socket → M Bytes
  open_auction a s = do
    exists ← gets (verify_user_exists a.uid)
    if exists
        then (do
          correct ← verify_password_correct a.uid a.password
          logged ← gets (is_user_login a.uid)
          if correct
              then (if logged
                  then (do
                    auction_id ←
                        create_auction s a.uid a.name a.asset_fname (atoi a.start_value)
                          (atoi a.timeactive) (atoi a.fsize)
                    pure (open_reply auction_id))
                  else pure (codes "ROA NLG\n"))
              else pure (codes "ROA NOK\n"))
        else pure (codes "ROA NOK\n")

  unfoldable pub handle_open : Socket → M Bytes
  handle_open s = elim (read_open s) [
    | none ↦ pure (codes "ROA ERR\n")
    | some (a, s') ↦
        if verify_open_args a.uid a.password a.name a.start_value a.timeactive a.asset_fname a.fsize
        then open_auction a s'
        else pure (codes "ROA ERR\n")
  ]

-- ===== src/Auctions/Record/Laws.antt =====
-- `get_auc_info` in a sound world: if the texts fit their arrays, the world stays sound.
use auction_simulator.Prelude.{ℕ, ◌≡◌, refl, Option, none, some, ◌++◌}
use auction_simulator.Text.{Bytes}
use auction_simulator.Text.Decimal.{print3}
use auction_simulator.World.{World, AuctionDir}
use auction_simulator.World.Dir.{find}
use auction_simulator.World.Monad.{M, pure, crash}
use auction_simulator.World.Platform.{Platform}
use auction_simulator.World.Mights.{
  Might, Might-Ends, Might-test, Might-bind, Might-read, Might-mono,
}
use auction_simulator.Auctions.Files.{StartFields}
use auction_simulator.Auctions.Lifecycle.{ongoing_auction}
use auction_simulator.Auctions.Lifecycle.Laws.{Checked, ongoing_auction-Checked}
use auction_simulator.Auctions.Record.{
  bid_parts, end_part, start_part, read_start_file, read_end_file, add_end, info_in, info_of,
  get_auc_info,
}
use auction_simulator.Auctions.Sound.{IsSound, Kept}
use auction_simulator.Auctions.Growth.{Kept-refl}

end_same :
    (status : Bytes) (o : Option Bytes) (w : World)
    → Might
        ((elim o as (λ _. M Bytes) [
          | none ↦ pure status
          | some text ↦ elim (read_end_file text) [
            | none ↦ crash
            | some e ↦ pure (status ++ end_part e)
          ]
        ])
          w)
        (λ reply w'. w' ≡ w)
end_same status none w = refl
end_same status (some text) w =
    Might-read (read_end_file text) crash (λ e. pure (status ++ end_part e)) w _ tt (λ e _. refl)

add_end_same :
    (status : Bytes) (found : Option AuctionDir) (w : World)
    → Might (add_end status found w) (λ reply w'. w' ≡ w)
unfolding add_end
add_end_same status none w = refl
add_end_same status (some d) w = end_same status d.end_file w

module _ ⦃p : Platform⦄ where
  info_in-Kept :
      (auc_id : ℕ) (status : Bytes) (start : StartFields) (w : World) (d : AuctionDir)
      → IsSound w
      → Might (info_in auc_id status start d w) (λ reply w'. Kept w w')
  unfolding info_in
  info_in-Kept auc_id status start w d s =
      Might-read (bid_parts (p.readdir d.bids) (status ++ start_part start)) _ _ w _ tt (λ listed _.
        Might-bind (ongoing_auction auc_id w) _ (Checked auc_id w) (λ reply w'. Kept w w')
          (Might-Ends (ongoing_auction auc_id w) (Checked auc_id w)
            (ongoing_auction-Checked auc_id w s))
          (λ ongoing v c.
            Might-test ongoing _ _ v _ (λ _. record { sound = c.sound; grows = c.grows })
              (λ _.
                Might-mono (add_end listed (find (print3 auc_id) v.auctions) v) (λ reply w'. w' ≡ v)
                  (λ reply w'. Kept w w') (add_end_same listed (find (print3 auc_id) v.auctions) v)
                  (λ reply w' same. rw same (record { sound = c.sound; grows = c.grows })))))

  info_of-Kept :
      (auc_id : ℕ) (status : Bytes) (w : World) (found : Option AuctionDir)
      → IsSound w
      → Might (info_of auc_id status found w) (λ reply w'. Kept w w')
  unfolding info_of
  info_of-Kept auc_id status w none s = Kept-refl w s
  info_of-Kept auc_id status w (some d) s = started d.start_file
    where
      started :
          (o : Option Bytes)
          → Might
              ((elim o as (λ _. M Bytes) [
                | none ↦ pure status
                | some text ↦ elim (read_start_file text) [
                  | none ↦ crash
                  | some start ↦ info_in auc_id status start d
                ]
              ])
                w)
              (λ reply w'. Kept w w')
      started none = Kept-refl w s
      started (some text) =
          Might-read (read_start_file text) crash (λ start. info_in auc_id status start d) w _ tt
            (λ start _. info_in-Kept auc_id status start w d s)

  -- In a sound world the world stays sound for every identifier, if `get_auc_info` returns.
  pub get_auc_info-Kept :
      (auc_id : ℕ) (status : Bytes) (w : World)
      → IsSound w
      → Might (get_auc_info auc_id status w) (λ reply w'. Kept w w')
  unfolding get_auc_info
  get_auc_info-Kept auc_id status w s =
      info_of-Kept auc_id status w (find (print3 auc_id) w.auctions) s

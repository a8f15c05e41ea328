-- ===== src/Tcp/Asset/Laws.antt =====
-- `handle_show_asset`: it changes nothing, and when it ends the process.
use auction_simulator.Prelude.{
  ℕ, ◌≡◌, ◌≢◌, refl, true, ◌∙◌, ap, length, inl, inr, Option-cases, none, some, List, [], ◌∷◌, ◌++◌,
  arith,
}
use auction_simulator.Text.{Bytes, codes, blank, newline}
use auction_simulator.Text.Decimal.{print}
use auction_simulator.Socket.{Socket}
use auction_simulator.Input.Verify.{verify_aid}
use auction_simulator.World.{World, AuctionDir}
use auction_simulator.World.Dir.{find}
use auction_simulator.World.Ends.{Ends, Ends-eq, Ends-test, Ends-read}
use auction_simulator.Auctions.Asset.{
  exists_auction, get_auc_file_info, send_auc_file, file_info, file_data,
}
use auction_simulator.Tcp.Fields.{final}
use auction_simulator.Tcp.Asset.{show_asset, handle_show_asset}

verify_aid-nil : verify_aid [] ≡ true
unfolding verify_aid
verify_aid-nil = refl

show_asset-nil : (w : World) → show_asset [] w ≡ none
unfolding show_asset exists_auction get_auc_file_info
show_asset-nil w = refl

-- SAS with an empty identifier ends the process in every world.
pub handle_show_asset-nil :
    (s : Socket) (w : World) → final 3 s ≡ some [] → handle_show_asset s w ≡ none
unfolding handle_show_asset
handle_show_asset-nil s w e = ground (arith, verify_aid-nil, show_asset-nil w)

-- "RSA OK ", the name, the size and the bytes of the first file, and two line ends.
abbrev pub asset_reply : List (Bytes × Bytes) → Bytes
asset_reply [] = codes "RSA OK" ++ blank ∷ newline ∷ []
asset_reply ((name, content) ∷ rest) =
    (codes "RSA OK" ++ blank ∷ (name ++ blank ∷ print (length content)))
    ++ blank ∷ ((content ++ newline ∷ []) ++ newline ∷ [])

module _ (c : ℕ) (cs : Bytes) (w : World) where
  info_known :
      {d : AuctionDir} {entries : List (Bytes × Bytes)}
      → find (c ∷ cs) w.auctions ≡ some d
      → d.asset ≡ entries
      → get_auc_file_info (c ∷ cs) (codes "RSA OK") w ≡ some (file_info (codes "RSA OK") entries, w)
  unfolding get_auc_file_info
  info_known found e = ground arith

  data_known :
      {d : AuctionDir} {entries : List (Bytes × Bytes)}
      → find (c ∷ cs) w.auctions ≡ some d
      → d.asset ≡ entries
      → send_auc_file (c ∷ cs) w ≡ some (file_data entries, w)
  unfolding send_auc_file
  data_known found e = ground arith

  asset_reply_known :
      (entries : List (Bytes × Bytes)) {d : AuctionDir}
      → find (c ∷ cs) w.auctions ≡ some d
      → d.asset ≡ entries
      → show_asset (c ∷ cs) w ≡ some (asset_reply entries, w)
  unfolding show_asset exists_auction
  asset_reply_known [] found e = ground (arith, info_known found e, data_known found e)
  asset_reply_known ((name, content) ∷ rest) found e =
      ground (arith, info_known found e, data_known found e)

  no_asset : find (c ∷ cs) w.auctions ≡ none → show_asset (c ∷ cs) w ≡ some (codes "RSA NOK\n", w)
  unfolding show_asset exists_auction
  no_asset gone = rw gone refl

pub show_asset_lem :
    (auc_id : Bytes) (w : World)
    → auc_id ≢ []
    → show_asset auc_id w ≡ elim (find auc_id w.auctions) [
      | none ↦ some (codes "RSA NOK\n", w)
      | some d ↦ some (asset_reply d.asset, w)
    ]
show_asset_lem [] w h = absurd (h refl)
show_asset_lem (c ∷ cs) w h = elim (Option-cases (find (c ∷ cs) w.auctions)) [
  | inl gone ↦ rw (no_asset c cs w gone, gone) refl
  | inr (d, found) ↦ rw (asset_reply_known c cs w d.asset found refl, found) refl
]

show_asset-same :
    (auc_id : Bytes) (w : World) → auc_id ≢ [] → Ends (show_asset auc_id w) (λ reply w'. w' ≡ w)
show_asset-same auc_id w h = elim (Option-cases (find auc_id w.auctions)) [
  | inl gone ↦ Ends-eq _ _ (rw gone at (show_asset_lem auc_id w h)) refl
  | inr (d, found) ↦ Ends-eq _ _ (rw found at (show_asset_lem auc_id w h)) refl
]

-- With any other identifier there is a reply and nothing is changed.
pub handle_show_asset-same :
    (s : Socket) (w : World)
    → final 3 s ≢ some []
    → Ends (handle_show_asset s w) (λ reply w'. w' ≡ w)
unfolding handle_show_asset
handle_show_asset-same s w h = Ends-read (final 3 s) _ _ w _ refl (λ auc_id e.
    Ends-test (verify_aid auc_id) _ _ w _
      (λ ok. show_asset-same auc_id w (λ empty. h (e ∙ ap some empty))) (λ refused. refl))

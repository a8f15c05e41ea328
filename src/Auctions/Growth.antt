-- ===== src/Auctions/Growth.antt =====
-- `Grows` is reflexive and transitive, and holds of the single writes of the server.
use auction_simulator.Prelude.{
  ◌≤◌, ◌≡◌, refl, sym, ◌∙◌, ap, inl, inr, Bool-cases, some, [], ◌++◌, append_assoc, append-nil,
  arith,
}
use auction_simulator.Text.{Bytes, same, same_iff}
use auction_simulator.World.{World, AuctionDir}
use auction_simulator.World.Dir.{find, find-put}
use auction_simulator.Auctions.Files.{set_auction}
use auction_simulator.World.Platform.{Platform}
use auction_simulator.Auctions.Sound.{Later, Grows, Kept, IsSound}

pub Later-refl : (d : AuctionDir) → Later d d
Later-refl d = record {
  same_start = refl;
  same_end = λ text e. e;
  added = ([], sym (append-nil d.bids));
  frozen = λ text e. refl;
}

pub Later-trans : {d e f : AuctionDir} → Later d e → Later e f → Later d f
Later-trans {d} l m = record {
  same_start = m.same_start ∙ l.same_start;
  same_end = λ text h. m.same_end text (l.same_end text h);
  added = (
    l.added.0 ++ m.added.0,
    m.added.1 ∙ ap (λ b. b ++ m.added.0) l.added.1 ∙ append_assoc d.bids l.added.0 m.added.0,
  );
  frozen = λ text h. m.frozen text (l.same_end text h) ∙ l.frozen text h;
}

pub Grows-refl : (w : World) → Grows w w
Grows-refl w = record { auction = λ name d h. (d, h, Later-refl d); clock = omega arith }

pub Grows-trans : {u v w : World} → Grows u v → Grows v w → Grows u w
Grows-trans g h = record {
  auction = λ name d found.
      let (e, found', l) = g.auction name d found in
      let (f, found'', m) = h.auction name e found' in (f, found'', Later-trans l m);
  clock = omega (arith, g.clock, h.clock);
}

-- A world that differs in its users and its clock only.
pub Grows-aside : (w w' : World) → w'.auctions ≡ w.auctions → w.now ≤ w'.now → Grows w w'
Grows-aside w w' e h = record { auction = λ name d found. (d, rw e found, Later-refl d); clock = h }

-- The directory of an auction is made, or replaced by a later one.
pub Grows-set :
    (w : World) (name : Bytes) (d' : AuctionDir)
    → ((d : AuctionDir) → find name w.auctions ≡ some d → Later d d')
    → Grows w (set_auction name d' w)
Grows-set w name d' h = record {
  auction = λ other d found. elim (Bool-cases (same name other)) [
    | inl e ↦
        let is_name : name ≡ other = (same_iff name other).0 e in
        (d', rw (find-put, e), h d (rw is_name found))
    | inr e ↦ (d, rw (find-put, e) found, Later-refl d)
  ];
  clock = omega arith;
}

module _ ⦃p : Platform⦄ where
  pub Kept-refl : (w : World) → IsSound w → Kept w w
  Kept-refl w s = record { sound = s; grows = Grows-refl w }

  pub Kept-trans : {u v w : World} → Grows u v → Kept v w → Kept u w
  Kept-trans g k = record { sound = k.sound; grows = Grows-trans g k.grows }

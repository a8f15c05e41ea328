-- ===== src/Auctions/Listing/Laws.antt =====
-- The states that the lists of auctions give.

use auction_simulator.Prelude.{
  ◌≡◌, ◌≢◌, sym, ◌∙◌, Bool, true, false, refl, ap, none, some, List, [], ◌∷◌, ◌++◌, append_assoc,
  append-nil, arith, Option-cases, inl, inr,
}
use auction_simulator.Text.{Bytes, blank}
use auction_simulator.Text.Decimal.{atoi, print3}
use auction_simulator.World.{World, AuctionDir}
use auction_simulator.World.Dir.{find}
use auction_simulator.World.Platform.{Platform}
use auction_simulator.World.Ends.{Ends, Ends-bind, Ends-mono}
use auction_simulator.Auctions.Lifecycle.{ongoing_auction}
use auction_simulator.Auctions.Lifecycle.Laws.{Checked, ongoing_auction-Checked}
use auction_simulator.Auctions.Listing.{append_states, flag}
use auction_simulator.Auctions.Sound.{IsSound, Kept, Grows, Later}
use auction_simulator.Auctions.Growth.{Kept-refl, Kept-trans, Grows-trans}

-- The digit 1 for an auction that is going on, and 0 for one that is not.
abbrev pub state_text : Bool → Bytes
state_text true = b'1' ∷ []
state_text false = b'0' ∷ []

-- " 001 1 002 0 …"
abbrev pub entries : List Bytes → List Bool → Bytes
entries [] states = []
entries (auc_id ∷ ids) [] = []
entries (auc_id ∷ ids) (b ∷ states) = (blank ∷ auc_id ++ blank ∷ state_text b) ++ entries ids states

flag_text : (b : Bool) → flag b ≡ blank ∷ state_text b
flag_text true = refl
flag_text false = refl

-- An auction with the state 1 is there with no END file at a moment from w to w'.
abbrev pub IsLive : Bytes → World → World → Type 0
IsLive auc_id w w' =
    (v : World) × (d : AuctionDir) × Grows w v
    × Grows v w'
    × (find (print3 (atoi auc_id)) v.auctions ≡ some d)
    × (d.end_file ≡ none)

-- An auction with the state 0 has an END file afterwards.
abbrev pub IsOver : Bytes → World → World → Type 0
IsOver auc_id w w' =
    (d : AuctionDir)
    → find (print3 (atoi auc_id)) w.auctions ≡ some d
    → (d' : AuctionDir) × (find (print3 (atoi auc_id)) w'.auctions ≡ some d') × (d'.end_file ≢ none)

abbrev pub Told : List Bytes → List Bool → World → World → Type 0
Told [] states w w' = Unit
Told (auc_id ∷ ids) [] w w' = ⊥
Told (auc_id ∷ ids) (b ∷ states) w w' =
    ((b ≡ true → IsLive auc_id w w') × (b ≡ false → IsOver auc_id w w')) × Told ids states w w'

ended_still : (d d' : AuctionDir) → Later d d' → d.end_file ≢ none → d'.end_file ≢ none
ended_still d d' l h = elim (Option-cases d.end_file) [
  | inl e ↦ absurd (h e)
  | inr (text, e) ↦ λ gone. ground (arith, l.same_end text e)
]

Told-earlier :
    (ids : List Bytes) (states : List Bool) (u v w : World)
    → Grows u v
    → Told ids states v w
    → Told ids states u w
Told-earlier [] states u v w g h = tt
Told-earlier (auc_id ∷ ids) [] u v w g h = h
Told-earlier (auc_id ∷ ids) (b ∷ states) u v w g ((live, over), hs) = (
  (
    λ e.
        let (x, d, before, after, found, no_end) = live e in
        (x, d, Grows-trans g before, after, found, no_end),
    λ e d found. let (d', found', l) = g.auction (print3 (atoi auc_id)) d found in over e d' found',
  ),
  Told-earlier ids states u v w g hs,
)

joined : (s a f r : Bytes) → ((s ++ a) ++ f) ++ r ≡ s ++ ((a ++ f) ++ r)
joined s a f r = simp append_assoc

module _ ⦃p : Platform⦄ where
  IsOver-Checked :
      (auc_id : Bytes) (b : Bool) (u v w : World)
      → Checked (atoi auc_id) u b v
      → Grows v w
      → b ≡ false
      → IsOver auc_id u w
  IsOver-Checked auc_id b u v w c g e d found =
      let name = print3 (atoi auc_id) in
      let (d1, found1, l1) = c.grows.auction name d found in
      let (d2, found2, l2) = g.auction name d1 found1 in
      (d2, found2, ended_still d1 d2 l2 (c.over e d1 found1))

  IsLive-Checked :
      (auc_id : Bytes) (b : Bool) (u v w : World)
      → Checked (atoi auc_id) u b v
      → Grows v w
      → b ≡ true
      → IsLive auc_id u w
  IsLive-Checked auc_id b u v w c g e =
      let (d, found, no_end) = c.live e in (v, d, c.grows, g, found, no_end)

  -- What the loop leaves: the identifiers, each with a state.
  pub record Listed (ids : List Bytes) (status : Bytes) (w : World) (reply : Bytes) (w' : World)
      : Type 0 where
    pub kept : Kept w w'
    pub states : List Bool
    pub text : reply ≡ status ++ entries ids states
    pub told : Told ids states w w'

  -- In a sound world the loop over a list of identifiers ends and appends to the reply each
  -- identifier in its order with the state 1 or 0; an auction with the state 1 is there with no
  -- END file at a moment of the loop, an auction that is there and has the state 0 has an END
  -- file afterwards, and the world stays sound.
  pub append_states-Listed :
      (ids : List Bytes) (status : Bytes) (w : World)
      → IsSound w
      → Ends (append_states ids status w) (Listed ids status w)
  unfolding append_states
  append_states-Listed [] status w s = record {
    kept = Kept-refl w s;
    states = [];
    text = sym (append-nil status);
    told = tt;
  }
  append_states-Listed (auc_id ∷ ids) status w s =
      Ends-bind (ongoing_auction (atoi auc_id) w) _ (Checked (atoi auc_id) w)
        (Listed (auc_id ∷ ids) status w) (ongoing_auction-Checked (atoi auc_id) w s)
        (λ b v c.
          Ends-mono (append_states ids (status ++ blank ∷ auc_id ++ flag b) v)
            (Listed ids (status ++ blank ∷ auc_id ++ flag b) v) (Listed (auc_id ∷ ids) status w)
            (append_states-Listed ids (status ++ blank ∷ auc_id ++ flag b) v c.sound)
            (λ reply w' l. record {
              kept = Kept-trans c.grows l.kept;
              states = b ∷ l.states;
              text =
                  l.text
                  ∙ joined status (blank ∷ auc_id) (flag b) (entries ids l.states)
                  ∙ ap (λ f. status ++ ((blank ∷ auc_id ++ f) ++ entries ids l.states))
                      (flag_text b);
              told = (
                (
                  IsLive-Checked auc_id b w v w' c l.kept.grows,
                  IsOver-Checked auc_id b w v w' c l.kept.grows,
                ),
                Told-earlier ids l.states w v w' c.grows l.told,
              );
            }))

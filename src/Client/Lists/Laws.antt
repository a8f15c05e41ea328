-- ===== src/Client/Lists/Laws.antt =====
-- `listAllAuctions` with the server at the other end.
use mathlib.Core.List.{foldr}
use mathlib.Core.List.Perm.{foldr-eq}
use auction_simulator.Prelude.{
  if◌then◌else◌, ℕ, ◌+◌, ◌*◌, ◌≤◌, ◌<◌, ◌≡◌, refl, ◌∙◌, ap, Bool, true, false, inl, inr, Bool-cases,
  some, List, [], ◌∷◌, ◌++◌, append_assoc, arith, length, All, lt→ltb, take, take_all,
}
use auction_simulator.Text.{Bytes, codes, newline, same, all}
use auction_simulator.Socket.Fields.{is_plain}
use auction_simulator.Input.Udp.{read_command_udp}
use auction_simulator.World.{World}
use auction_simulator.World.Dir.{names}
use auction_simulator.World.Platform.{Platform}
use auction_simulator.World.Ends.{Ends, Ends-bind, Ends-test, fitted-Ends}
use auction_simulator.Auctions.Listing.{
  append_states, scandir, append_auctions, exists_auctions, some_name, behind_first, is_dots,
}
use auction_simulator.Auctions.Listing.Order.{scandir-All, length-scandir}
use auction_simulator.Auctions.Listing.Laws.{entries, Listed, Told, append_states-Listed}
use auction_simulator.Auctions.Sound.{IsSound, Kept}
use auction_simulator.Udp.Queries.{handle_list, list_all}
use auction_simulator.Udp.Dispatch.{process_udp_request, command_udp, dispatch_udp}
use auction_simulator.Client.Network.{connect_udp, defined}
use auction_simulator.World.Monad.{fitted}
use auction_simulator.Client.Listing.{list_answer}
use auction_simulator.Client.Listing.Laws.{IsShort, lines}
use auction_simulator.Client.Listing.Answers.{list_reply, list_answer-list_reply}
use auction_simulator.Client.Listing.Bounds.{IsAid, length-list_reply, Told-length}
use auction_simulator.Client.Lists.{list_all_auctions}

-- The names that the server gives to at most 999 auctions.
pub record IsName (name : Bytes) : Type 0 where
  pub plain : all is_plain name ≡ true
  pub three : length name ≡ 3

pub All-IsShort : (l : List Bytes) → All IsName l → All IsShort l
All-IsShort [] h = tt
All-IsShort (name ∷ l) (h, hs) = (
  record { plain = h.plain; fits = omega (arith, h.three); filled = omega (arith, h.three) },
  All-IsShort l hs,
)

pub All-IsAid : (l : List Bytes) → All IsName l → All IsAid l
All-IsAid [] h = tt
All-IsAid (name ∷ l) (h, hs) = (h.three, All-IsAid l hs)

-- The entries that are not "." or "..".
abbrev counted : Bytes → ℕ → ℕ
counted name n = if is_dots name then n else n + 1

abbrev pub auctions_among : List Bytes → ℕ
auctions_among = foldr counted 0

counted_comm : (a b : Bytes) (n : ℕ) → counted a (counted b n) ≡ counted b (counted a n)
counted_comm a b n = both (is_dots a) (is_dots b)
  where
    both :
        (x y : Bool)
        → (if x then (if y then n else n + 1) else (if y then n else n + 1) + 1)
          ≡ (if y then (if x then n else n + 1) else (if x then n else n + 1) + 1)
    both true true = refl
    both true false = refl
    both false true = refl
    both false false = refl

some_name_there : (l : List Bytes) → 0 < auctions_among l → some_name l ≡ true
unfolding some_name
some_name_there [] h = absurd (omega arith)
some_name_there (name ∷ rest) h = elim (Bool-cases (is_dots name)) [
  | inl e ↦ rw e (some_name_there rest (rw e at h))
  | inr e ↦ rw e refl
]

among_first :
    (l : List Bytes)
    → auctions_among l ≡ auctions_among (behind_first l) + auctions_among (take 1 l)
among_first [] = refl
among_first (name ∷ rest) = elim (Bool-cases (is_dots name)) [
  | inl e ↦ rw e (omega arith)
  | inr e ↦ rw e (omega arith)
]

not_dots : (name : Bytes) → length name ≡ 3 → is_dots name ≡ false
unfolding same
not_dots [] h = refl
not_dots (a ∷ []) h = absurd (omega arith)
not_dots (a ∷ b ∷ []) h = absurd (omega arith)
not_dots (a ∷ b ∷ c ∷ rest) h = ground arith

among_names : (l : List Bytes) → All IsName l → auctions_among l ≡ length l
among_names [] h = refl
among_names (name ∷ l) (h, hs) = rw (not_dots name h.three) (omega (arith, among_names l hs))

shows :
    (ids : List Bytes) (states : List Bool)
    → All IsShort ids
    → 0 < length ids
    → length ids ≤ length states
    → list_answer (list_reply (codes "RLS") ids states)
      ≡ some (codes "Auctions currently open:\n" ++ lines ids states)
shows [] states h pos enough = absurd (omega arith)
shows (auc_id ∷ ids) [] h pos enough = absurd (omega arith)
shows (auc_id ∷ ids) (b ∷ states) h pos enough =
    list_answer-list_reply auc_id b ids states h (omega arith)

module _ ⦃p : Platform⦄ where
  -- What the client shows: the auctions in order, each with a state.
  pub record Shown (ids : List Bytes) (head : Bytes) (w : World) (out : Bytes) (w' : World)
      : Type 0 where
    pub kept : Kept w w'
    pub states : List Bool
    pub text : out ≡ head ++ lines ids states
    pub told : Told ids states w w'

  record Sent (ids : List Bytes) (w : World) (reply : Bytes) (w' : World) : Type 0 where
    kept : Kept w w'
    states : List Bool
    text : reply ≡ list_reply (codes "RLS") ids states
    told : Told ids states w w'

  -- Some auction is behind the first entry of `readdir`.
  abbrev pub Seen : World → Type 0
  Seen w = auctions_among (take 1 (p.listed (names w.auctions))) < length (names w.auctions)

  exists_some : (w : World) → All IsName (names w.auctions) → Seen w → exists_auctions w ≡ true
  unfolding exists_auctions same
  exists_some w h seen =
      let l = p.listed (names w.auctions) in
      let all_there : auctions_among l ≡ auctions_among (names w.auctions) =
        foldr-eq (hlevel) counted counted_comm (p.listed-perm (names w.auctions)) 0 in
      some_name_there (behind_first l)
        (omega (arith, seen, among_first l, all_there, among_names (names w.auctions) h))

  request_list : (w : World) → process_udp_request (codes "LST\n") w ≡ list_all w
  unfolding process_udp_request read_command_udp command_udp dispatch_udp handle_list same
  request_list w = refl

  reply_size :
      (ids : List Bytes) (w : World) (reply : Bytes) (w' : World)
      → All IsName ids
      → Sent ids w reply w'
      → length reply ≡ 6 * length ids + 7
  reply_size ids w reply w' h t =
      ap length t.text
      ∙ length-list_reply (codes "RLS") ids t.states (omega arith) (All-IsAid ids h)
          (Told-length ids t.states w w' t.told)

  append_auctions-Sent :
      (w : World)
      → IsSound w
      → Ends (append_auctions (codes "RLS OK") w) (Sent (scandir (names w.auctions)) w)
  unfolding append_auctions
  append_auctions-Sent w s =
      let ids = scandir (names w.auctions) in
      Ends-bind (append_states ids (codes "RLS OK") w) _ (Listed ids (codes "RLS OK") w)
        (Sent ids w) (append_states-Listed ids (codes "RLS OK") w s)
        (λ listed w' l. record {
          kept = l.kept;
          states = l.states;
          text =
              ap (λ t. t ++ newline ∷ []) l.text
              ∙ append_assoc (codes "RLS OK") (entries ids l.states) (newline ∷ []);
          told = l.told;
        })

  list_all-Sent :
      (w : World)
      → IsSound w
      → All IsName (names w.auctions)
      → Seen w
      → length (names w.auctions) ≤ 999
      → Ends (list_all w) (Sent (scandir (names w.auctions)) w)
  unfolding list_all
  list_all-Sent w s named seen few =
      let ids = scandir (names w.auctions) in
      Ends-test (exists_auctions w) _ _ w _
        (λ there.
          Ends-bind (append_auctions (codes "RLS OK") w) _ (Sent ids w) (Sent ids w)
            (append_auctions-Sent w s)
            (λ reply w' t.
              fitted-Ends 9999 reply w' (Sent ids w)
                (omega (
                  arith,
                  reply_size ids w reply w' (scandir-All IsName (names w.auctions) named) t,
                  length-scandir (names w.auctions),
                ))
                t))
        (λ gone. absurd (ground (arith, exists_some w named seen)))

  -- The list of at most 999 auctions fits the buffer.
  received :
      (ids : List Bytes) (w : World) (reply : Bytes) (w' : World)
      → All IsName ids
      → length ids ≤ 999
      → Sent ids w reply w'
      → Ends (fitted 6100 (take 8095 reply) w') (Sent ids w)
  received ids w reply w' h few t =
      let size = reply_size ids w reply w' h t in
      rw (Ends, take_all 8095 reply (omega arith), lt→ltb (length reply) 6100 (omega arith)) t

  shown :
      (ids : List Bytes) (w : World) (buffer : Bytes) (w' : World)
      → All IsName ids
      → 0 < length ids
      → Sent ids w buffer w'
      → Ends (defined (list_answer buffer) w') (Shown ids (codes "Auctions currently open:\n") w)
  shown ids w buffer w' h pos t =
      let enough = Told-length ids t.states w w' t.told in
      rw (Ends, t.text, shows ids t.states (All-IsShort ids h) pos enough)
        (record { kept = t.kept; states = t.states; text = refl; told = t.told })

  connect-Sent :
      (w : World)
      → IsSound w
      → All IsName (names w.auctions)
      → Seen w
      → length (names w.auctions) ≤ 999
      → Ends (connect_udp 6100 (codes "LST\n") w) (Sent (scandir (names w.auctions)) w)
  unfolding connect_udp
  connect-Sent w s named seen few =
      let ids = scandir (names w.auctions) in
      let sent : Ends (process_udp_request (codes "LST\n") w) (Sent ids w) =
        rw (request_list w) (list_all-Sent w s named seen few) in
      Ends-bind (process_udp_request (codes "LST\n") w) _ (Sent ids w) (Sent ids w) sent
        (λ reply w' t.
          received ids w reply w' (scandir-All IsName (names w.auctions) named)
            (omega (arith, length-scandir (names w.auctions))) t)

  -- In a sound world of at most 999 auctions with names of three bytes that are no separators, at
  -- least one of which is behind the first entry of readdir, listAllAuctions gets the server's
  -- list without a crash of either side and prints the auctions in the order of their names, a
  -- line for each with the state 1 or 0; one with the state 1 is there with no END file at a
  -- moment of the request, one with the state 0 has an END file afterwards, and the world stays
  -- sound.
  pub list_all_auctions-Shown :
      (w : World)
      → IsSound w
      → All IsName (names w.auctions)
      → Seen w
      → length (names w.auctions) ≤ 999
      → Ends
          (list_all_auctions w)
          (Shown (scandir (names w.auctions)) (codes "Auctions currently open:\n") w)
  unfolding list_all_auctions
  list_all_auctions-Shown w s named seen few =
      let ids = scandir (names w.auctions) in
      let h = scandir-All IsName (names w.auctions) named in
      Ends-bind (connect_udp 6100 (codes "LST\n") w) _ (Sent ids w)
        (Shown ids (codes "Auctions currently open:\n") w) (connect-Sent w s named seen few)
        (λ buffer w' t.
          shown ids w buffer w' h (omega (arith, length-scandir (names w.auctions))) t)

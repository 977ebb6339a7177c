-- ===== src/Server/Hub/Tracked.antt =====
-- The hub's openers over its entries: a live room keeps the address it was opened from.
use klatchr.Prelude.{
  ℕ, ◌≡◌, refl, ◌∙◌, true, Option, List, [], ◌∷◌, Text, lookup, omit, has, same_iff, has-omit,
  has-insert, lookup-omit, if◌then◌else◌, arith, Option-cases, inl, inr,
}
use klatchr.Server.Wire.{Effect, send, close, superseded, closed_out, usage}
use klatchr.Server.Session.{Session}
use klatchr.Server.Hub.{Hub, forget_opener, drop_room, settle, store}

-- The rooms that are live after a step were live before it, or were opened in it from an address.
abbrev pub Tracks : Option Text → Hub → Hub → Type 0
Tracks address hub after =
    (code : Text)
    → has code after.rooms ≡ true
    → lookup code after.opened_by
      ≡ (if has code hub.rooms then lookup code hub.opened_by else address)

-- A step that opens no room.
abbrev pub Keeps : Hub → Hub → Type 0
Keeps hub after =
    (code : Text)
    → has code after.rooms ≡ true
    → (has code hub.rooms ≡ true) × (lookup code after.opened_by ≡ lookup code hub.opened_by)

pub Keeps-Tracks :
    (address : Option Text) (hub after : Hub) → Keeps hub after → Tracks address hub after
Keeps-Tracks address hub after k code live = ground (arith, k code live)

pub then-Keeps : (hub mid after : Hub) → Keeps hub mid → Keeps mid after → Keeps hub after
then-Keeps hub mid after j k code live =
    let now = k code live in let before = j code now.0 in (before.0, now.1 ∙ before.1)

pub then-Tracks :
    (address : Option Text) (hub mid after : Hub)
    → Tracks address hub mid
    → Keeps mid after
    → Tracks address hub after
then-Tracks address hub mid after t k code live = let now = k code live in now.1 ∙ t code now.0

drop_room-Keeps : (hub : Hub) (code : Text) (conns : List ℕ) → Keeps hub (drop_room hub code conns)
unfolding drop_room forget_opener
drop_room-Keeps hub code conns k live = elim (Option-cases (lookup code hub.opened_by)) [
  | inl unknown ↦
      let still : has k (omit code hub.rooms) ≡ true = ground (arith, live) in
      ground (arith, has-omit code k hub.rooms, still)
  | inr (address, known) ↦
      let still : has k (omit code hub.rooms) ≡ true = ground (arith, live) in
      ground (
        arith,
        has-omit code k hub.rooms,
        lookup-omit code k hub.opened_by,
        same_iff k code,
        same_iff code k,
        still,
      )
]

settle-Keeps : (effects : List Effect) (hub : Hub) → Keeps hub (settle effects hub)
unfolding settle
settle-Keeps [] hub code live = (live, refl)
settle-Keeps (superseded conn ∷ effects) hub code live = settle-Keeps effects _ code live
settle-Keeps (closed_out own conns ∷ effects) hub code live =
    then-Keeps hub (drop_room hub own conns) (settle effects (drop_room hub own conns))
      (drop_room-Keeps hub own conns) (settle-Keeps effects (drop_room hub own conns)) code live
settle-Keeps (send conn message ∷ effects) hub code live = settle-Keeps effects _ code live
settle-Keeps (close conn ∷ effects) hub code live = settle-Keeps effects _ code live
settle-Keeps (usage line ∷ effects) hub code live = settle-Keeps effects _ code live

pub store-Keeps :
    (hub : Hub) (own : Text) (s : Session) → has own hub.rooms ≡ true → Keeps hub (store hub own s)
unfolding store
store-Keeps hub own s known code live =
    let stored = settle-Keeps s.log _ code live in
    (
      ground (
        arith,
        stored.0,
        has-insert own code (record s { log = [] }) hub.rooms,
        same_iff own code,
      ),
      stored.1,
    )

-- ===== src/Games/Catalogue/Owned.antt =====
-- The games of the catalogue keep their states apart.
use klatchr.Prelude.{
  true, false, some, Text, codes, Result, ok, err, Next, kept, fresh, next_of, ◌≡◌, refl, same,
  lookup, insert, arith, Bool-cases, inl, inr, subst, false,
}
use klatchr.Value.{Value}
use klatchr.Strings.{Unicode}
use klatchr.Game.{Game}
use klatchr.Registry.{get_game, create_registry, register, assert_bounds}
use klatchr.Games.GuessWho
use klatchr.Games.MostLikely
use klatchr.Room.{Room}
use klatchr.Room.Reach.{States, HoldsOwn, Reach, Reach-HoldsOwn}
use klatchr.Games.Catalogue.{
  AnyState, AnyView, nothing, of_guess_who, of_most_likely, games, catalogue, guess_who,
  most_likely_to, map_result, reduce_guess_who, reduce_most_likely,
}

-- A state under the id of its own game.
abbrev pub Owned : Text → AnyState → Type 0
Owned id nothing = ⊥
Owned id (of_guess_who s) = same (codes "guess-who") id ≡ true
Owned id (of_most_likely s) = same (codes "most-likely-to") id ≡ true

-- The registry that the server builds from the list of games is the catalogue.
pub create_registry-games : (u : Unicode) → create_registry (games u) ≡ ok (catalogue u)
unfolding create_registry register assert_bounds insert same
create_registry-games u = refl

first_of_catalogue :
    (u : Unicode) (id : Text) (g : Game AnyState AnyView)
    → get_game (catalogue u) id ≡ some g
    → same (codes "guess-who") id ≡ true
    → guess_who u ≡ g
unfolding lookup
first_of_catalogue u id g found hit = ground arith

second_of_catalogue :
    (u : Unicode) (id : Text) (g : Game AnyState AnyView)
    → get_game (catalogue u) id ≡ some g
    → same (codes "guess-who") id ≡ false
    → (same (codes "most-likely-to") id ≡ true) × (most_likely_to u ≡ g)
unfolding lookup
second_of_catalogue u id g found miss = ground arith

pub catalogue_cases :
    (u : Unicode) (id : Text) (g : Game AnyState AnyView) (P : Game AnyState AnyView → Type 0)
    → get_game (catalogue u) id ≡ some g
    → (same (codes "guess-who") id ≡ true → P (guess_who u))
    → (same (codes "most-likely-to") id ≡ true → P (most_likely_to u))
    → P g
catalogue_cases u id g P found first second = elim (Bool-cases (same (codes "guess-who") id)) [
  | inl hit ↦ subst P (first_of_catalogue u id g found hit) (first hit)
  | inr miss ↦ let (hit, e) = second_of_catalogue u id g found miss in subst P e (second hit)
]

map_result-fresh :
    {S T E : Type 0} (f : S → T) (r : Result (Next S) E) (t : T)
    → map_result f r ≡ ok (fresh t)
    → (s : S) × (f s ≡ t)
unfolding map_result
map_result-fresh f (ok (fresh s)) t h = (s, ground arith)
map_result-fresh f (ok kept) t h = absurd (cc)
map_result-fresh f (err e) t h = absurd (cc)

pub reduce_guess_who-Owned :
    (u : Unicode) (id : Text) (s : AnyState) (event : Value) (next : Next AnyState)
    → same (codes "guess-who") id ≡ true
    → Owned id s
    → reduce_guess_who u s event ≡ ok next
    → Owned id (next_of s next)
unfolding reduce_guess_who
reduce_guess_who-Owned u id s event kept hit own reduced = own
reduce_guess_who-Owned u id nothing event (fresh t) hit own reduced = absurd own
reduce_guess_who-Owned u id (of_most_likely s) event (fresh t) hit own reduced = absurd (cc)
reduce_guess_who-Owned u id (of_guess_who s) event (fresh t) hit own reduced =
    let (s', e) = map_result-fresh of_guess_who (GuessWho.reduce u s event) t reduced in
    subst (Owned id) e hit

pub reduce_most_likely-Owned :
    (id : Text) (s : AnyState) (event : Value) (next : Next AnyState)
    → same (codes "most-likely-to") id ≡ true
    → Owned id s
    → reduce_most_likely s event ≡ ok next
    → Owned id (next_of s next)
unfolding reduce_most_likely
reduce_most_likely-Owned id s event kept hit own reduced = own
reduce_most_likely-Owned id nothing event (fresh t) hit own reduced = absurd own
reduce_most_likely-Owned id (of_guess_who s) event (fresh t) hit own reduced = absurd (cc)
reduce_most_likely-Owned id (of_most_likely s) event (fresh t) hit own reduced =
    let (s', e) = map_result-fresh of_most_likely (MostLikely.reduce s event) t reduced in
    subst (Owned id) e hit

-- Each game of the catalogue makes, and keeps to, states of its own.
abbrev pub catalogue_states : (u : Unicode) → States (catalogue u)
catalogue_states u = record {
  Owns = Owned;
  init_owned = λ id g ps deps config found.
      catalogue_cases u id g (λ h. Owned id (h.init ps deps config)) found (λ hit. hit)
        (λ hit. hit);
  reduce_owned = λ id g s event next found own.
      catalogue_cases u id g (λ h. h.reduce s event ≡ ok next → Owned id (next_of s next)) found
        (λ hit. reduce_guess_who-Owned u id s event next hit own)
        (λ hit. reduce_most_likely-Owned id s event next hit own);
}

-- Whatever has happened to a room of the server, outside the lobby its state is one of the chosen
-- game's own: no game of the catalogue ever meets the state of the other.
pub catalogue_rooms_owned :
    (u : Unicode) (code host_id : Text) {room : Room AnyState}
    → Reach (catalogue u) nothing code host_id room
    → HoldsOwn (catalogue u) (catalogue_states u) room
catalogue_rooms_owned u code host_id past =
    Reach-HoldsOwn (catalogue u) (catalogue_states u) nothing code host_id past

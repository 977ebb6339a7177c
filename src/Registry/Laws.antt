-- ===== src/Registry/Laws.antt =====
-- What a registry holds (`createRegistry`).
use klatchr.Prelude.{
  ◌≤◌, ◌≡◌, refl, ◌∙◌, inl, inr, Option, none, some, List, [], ◌∷◌, Text, Dict, lookup, insert,
  same, same_iff, lookup-insert, ok, arith, if◌then◌else◌, Option-cases, Bool-cases, All, subst,
  sym, ◌↔◌, Result-cases,
}
use klatchr.Game.{Game, min_players_bound, max_players_bound}
use klatchr.Registry.{Registry, assert_bounds, register, create_registry, get_game}

-- A game keeps within the platform's bounds.
pub record InBounds {S V : Type 0} (g : Game S V) : Type 0 where
  pub enough : min_players_bound ≤ g.min_players
  pub ordered : g.min_players ≤ g.max_players
  pub fits : g.max_players ≤ max_players_bound

module _ {S V : Type 0} where
  -- The last game of a list that has the id.
  pub last_with : Text → List (Game S V) → Option (Game S V)
  last_with id [] = none
  last_with id (g ∷ games) = elim (last_with id games) [
    | some h ↦ some h
    | none ↦ if same g.id id then some g else none
  ]

  assert_bounds-InBounds : (g : Game S V) → assert_bounds g ≡ none → InBounds g
  unfolding assert_bounds
  assert_bounds-InBounds g h = ground arith

  InBounds-assert_bounds : (g : Game S V) → InBounds g → assert_bounds g ≡ none
  unfolding assert_bounds
  InBounds-assert_bounds g h = ground arith

  register_cases :
      (g : Game S V) (games : List (Game S V)) (m m' : Dict (Game S V))
      → register (g ∷ games) m ≡ ok m'
      → (assert_bounds g ≡ none) × (register games (insert g.id g m) ≡ ok m')
  unfolding register
  register_cases g games m m' h = ground arith

  lookup-register :
      (id : Text) (games : List (Game S V)) (m m' : Dict (Game S V))
      → register games m ≡ ok m'
      → lookup id m' ≡ (elim (last_with id games) [ some g ↦ some g | none ↦ lookup id m ])
  unfolding last_with register
  lookup-register id [] m m' h = ground arith
  lookup-register id (g ∷ games) m m' h =
      let (inside, rest) = register_cases g games m m' h in
      ground (arith, lookup-register id games (insert g.id g m) m' rest, lookup-insert g.id id g m)

  pick_later :
      (id : Text) (g : Game S V) (games : List (Game S V)) (later found : Game S V)
      → last_with id games ≡ some later
      → last_with id (g ∷ games) ≡ some found
      → last_with id games ≡ some found
  unfolding last_with
  pick_later id g games later found l e = ground arith

  pick_first :
      (id : Text) (g : Game S V) (games : List (Game S V)) (found : Game S V)
      → last_with id games ≡ none
      → last_with id (g ∷ games) ≡ some found
      → InBounds g
      → InBounds found × (found.id ≡ id)
  unfolding last_with
  pick_first id g games found l e v = elim (Bool-cases (same g.id id)) [
    | inl hit ↦
        let this : g ≡ found = ground arith in
        (subst InBounds this v, subst (λ k. k.id ≡ id) this ((same_iff g.id id).0 hit))
    | inr miss ↦ absurd (ground arith)
  ]

  last_with-InBounds :
      (id : Text) (games : List (Game S V)) (m m' : Dict (Game S V)) (g : Game S V)
      → register games m ≡ ok m'
      → last_with id games ≡ some g
      → InBounds g × (g.id ≡ id)
  unfolding last_with
  last_with-InBounds id [] m m' g h e = cc
  last_with-InBounds id (g ∷ games) m m' found h e =
      let (inside, rest) = register_cases g games m m' h in
      elim (Option-cases (last_with id games)) [
        | inr (later, l) ↦
            last_with-InBounds id games (insert g.id g m) m' found rest
              (pick_later id g games later found l e)
        | inl none_later ↦
            pick_first id g games found none_later e (assert_bounds-InBounds g inside)
      ]

  -- The registry that is made of a list of games holds, under each id, the last game of the list
  -- with that id.
  pub get_game-create_registry :
      (games : List (Game S V)) (r : Registry S V) (id : Text)
      → create_registry games ≡ ok r
      → get_game r id ≡ last_with id games
  unfolding create_registry lookup
  get_game-create_registry games r id h = elim (Result-cases (register games [])) [
    | inr (e, failed) ↦ absurd (ground arith)
    | inl (m, made) ↦ ground (arith, lookup-register id games [] m made)
  ]

  -- Every game that a registry made by `createRegistry` holds is under its own id and within the
  -- platform's bounds.
  pub get_game-InBounds :
      (games : List (Game S V)) (r : Registry S V) (id : Text) (g : Game S V)
      → create_registry games ≡ ok r
      → get_game r id ≡ some g
      → InBounds g × (g.id ≡ id)
  unfolding create_registry
  get_game-InBounds games r id g h e = elim (Result-cases (register games [])) [
    | inr (e, failed) ↦ absurd (ground arith)
    | inl (m, made) ↦
        last_with-InBounds id games [] m g made (sym (get_game-create_registry games r id h) ∙ e)
  ]

  register-InBounds :
      (games : List (Game S V)) (m m' : Dict (Game S V))
      → register games m ≡ ok m'
      → All InBounds games
  register-InBounds [] m m' h = tt
  register-InBounds (g ∷ games) m m' h =
      let (inside, rest) = register_cases g games m m' h in
      (assert_bounds-InBounds g inside, register-InBounds games (insert g.id g m) m' rest)

  InBounds-register :
      (games : List (Game S V)) (m : Dict (Game S V))
      → All InBounds games
      → (m' : Dict (Game S V)) × (register games m ≡ ok m')
  unfolding register
  InBounds-register [] m h = (m, refl)
  InBounds-register (g ∷ games) m h =
      rw (InBounds-assert_bounds g h.0, register) (InBounds-register games (insert g.id g m) h.1)

  -- A list of games makes a registry exactly when each of its games is within the bounds.
  pub create_registry-ok_iff :
      (games : List (Game S V))
      → ((r : Registry S V) × (create_registry games ≡ ok r)) ↔ All InBounds games
  unfolding create_registry
  create_registry-ok_iff games = (made, λ h. built (InBounds-register games [] h))
    where
      made : (r : Registry S V) × (create_registry games ≡ ok r) → All InBounds games
      made (r, h) = elim (Result-cases (register games [])) [
        | inr (e, failed) ↦ absurd (ground arith)
        | inl (m, done) ↦ register-InBounds games [] m done
      ]

      built :
          (m : Dict (Game S V)) × (register games [] ≡ ok m)
          → (r : Registry S V) × (create_registry games ≡ ok r)
      built (m, h) = (record { by_id = m }, rw (h, create_registry))

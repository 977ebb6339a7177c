-- ===== src/Registry.antt =====
-- packages/core/src/registry.ts: the games by id. What `createRegistry` throws is its error.
pub mod Laws
use klatchr.Prelude.{
  ℕ, Option, none, some, List, [], ◌∷◌, Text, Dict, values, lookup, insert, has, Result, ok, err,
  ltb, if◌then◌else◌, Bool,
}
use klatchr.Game.{Game, min_players_bound, max_players_bound}

pub data WiringError : Type 0 where
  below_min : Text → ℕ → WiringError
  above_max : Text → ℕ → WiringError
  crossed : Text → ℕ → ℕ → WiringError

module _ {S V : Type 0} where
  unfoldable pub assert_bounds : Game S V → Option WiringError
  assert_bounds g =
      if ltb g.min_players min_players_bound
      then some (below_min g.id g.min_players)
      else if ltb max_players_bound g.max_players
      then some (above_max g.id g.max_players)
      else if ltb g.max_players g.min_players
      then some (crossed g.id g.min_players g.max_players)
      else none

  -- The loop of `createRegistry` over the games left, with the map built so far.
  unfoldable pub register : List (Game S V) → Dict (Game S V) → Result (Dict (Game S V)) WiringError
  register [] by_id = ok by_id
  register (g ∷ games) by_id = elim (assert_bounds g) [
    | some e ↦ err e
    | none ↦ register games (insert g.id g by_id)
  ]

-- `has`, `get` and `list` read the map.
pub record Registry (S V : Type 0) : Type 0 where
  pub by_id : Dict (Game S V)

module _ {S V : Type 0} where
  abbrev pub has_game : Registry S V → Text → Bool
  has_game r id = has id r.by_id

  abbrev pub get_game : Registry S V → Text → Option (Game S V)
  get_game r id = lookup id r.by_id

  abbrev pub list_games : Registry S V → List (Game S V)
  list_games r = values r.by_id

  unfoldable pub create_registry : List (Game S V) → Result (Registry S V) WiringError
  create_registry games = elim (register games []) [
    | ok m ↦ ok (record { by_id = m })
    | err e ↦ err e
  ]

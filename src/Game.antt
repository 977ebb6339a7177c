-- ===== src/Game.antt =====
-- packages/core/src/game.ts, ids.ts, deps.ts and bounds.ts: the contract between the room and a
-- game. `S` is the type of the game states that the room holds as `unknown`, `V` that of views.
use klatchr.Prelude.{ℕ, Bool, Option, List, Text, Result, Next, codes}
use klatchr.Value.{Value, str, bool, obj, end, field}

abbrev pub min_players_bound : ℕ
min_players_bound = 2

abbrev pub max_players_bound : ℕ
max_players_bound = 50

pub record Player : Type 0 where
  pub id : Text
  pub nickname : Text
  pub joined_during_game : Bool
  pub spectator : Bool

pub data Viewer : Type 0 where
  player : Text → Viewer
  host : Viewer

pub record Score : Type 0 where
  pub player_id : Text
  pub points : ℕ

pub record GameError : Type 0 where
  pub code : Text
  pub message : Option Text

-- `random` is given by what the code takes of it: `scaled_random n` is `Math.floor(random() * n)`.
pub record GameDeps : Type 0 where
  pub scaled_random : ℕ → ℕ
  pub now : ℕ
  pub round : ℕ

pub data RosterEvent : Type 0 where
  player_joined : Player → RosterEvent
  player_left : Text → RosterEvent

pub data GameContext : Type 0 where
  teams strangers : GameContext

-- A roster fact reaches a game's reducer as the object that it is in the source.
unfoldable pub player_value : Player → Value
player_value p = obj (
    field (codes "id") (str p.id) (
      field (codes "nickname") (str p.nickname) (
        field (codes "joinedDuringGame") (bool p.joined_during_game)
          (field (codes "spectator") (bool p.spectator) end))))

unfoldable pub roster_value : RosterEvent → Value
roster_value (player_joined p) = obj (
    field (codes "type") (str (codes "playerJoined")) (field (codes "player") (player_value p) end))
roster_value (player_left id) =
    obj (field (codes "type") (str (codes "playerLeft")) (field (codes "id") (str id) end))

pub record Game (S V : Type 0) : Type 0 where
  pub id : Text
  pub name : Text
  pub description : Text
  pub contexts : Option (List GameContext)
  pub min_players : ℕ
  pub max_players : ℕ
  pub init : List Player → GameDeps → Value → S
  pub reduce : S → Value → Result (Next S) GameError
  pub view : S → Viewer → V
  pub scores : S → List Score
  pub is_complete : S → Bool
  pub round_count : Option (Value → ℕ)

-- ===== src/Room/State.antt =====
-- packages/core/src/roomTypes.ts: the room, its events and errors; of room.ts the guards and moves
-- of points that the handlers share, and `configureGame`, which needs no registry.
use klatchr.Prelude.{
  ℕ, Bool, true, false, List, [], ◌∷◌, map, Option, none, some, Text, Dict, lookup, insert, omit,
  same, Result, ok, err, Next, kept, fresh, if◌then◌else◌,
}
use klatchr.Value.{Value, undefined}
use klatchr.Value.Equality.{same_json}
use klatchr.Strings.{Unicode}
use klatchr.Game.{GameDeps, Player, Viewer, player, host}
use klatchr.Registry.{Registry}

pub data Phase : Type 0 where
  lobby in_game scores_shown : Phase

-- `s` is what the source holds as `unknown`; `null` among its values where no game has begun.
pub record Room (S : Type 0) : Type 0 where
  pub code : Text
  pub host_id : Text
  pub phase : Phase
  pub players : List Player
  pub tokens : Dict Text
  pub selected_game_id : Option Text
  pub game_state : S
  pub closed : Bool
  pub session_scores : Dict ℕ
  pub round : ℕ
  pub score_ledger : Dict ℕ
  pub game_config : Value

pub data RoomErrorCode : Type 0 where
  room_full not_host game_not_registered below_min_players no_game_selected : RoomErrorCode
  game_event_outside_game game_rejected forbidden_event empty_nickname : RoomErrorCode
  session_complete wrong_phase : RoomErrorCode

pub record RoomError : Type 0 where
  pub code : RoomErrorCode
  pub message : Option Text

pub data RoomEvent : Type 0 where
  join : Text → Option Text → RoomEvent
  leave : RoomEvent
  select_game : Text → RoomEvent
  configure_game : Value → RoomEvent
  start_game : RoomEvent
  game_event : Value → RoomEvent
  end_game : RoomEvent

-- `id` and `secret` are what the next calls of `roomDeps.id()` and `roomDeps.secret()` return; one
-- event makes at most one call of each.
pub record ReduceContext (S V : Type 0) : Type 0 where
  pub registry : Registry S V
  pub unicode : Unicode
  pub id : Text
  pub secret : Text
  pub game_deps : GameDeps

abbrev pub plain : RoomErrorCode → RoomError
plain c = record { code = c; message = none }

abbrev pub ids : List Player → List Text
ids ps = map (λ p. p.id) ps

unfoldable pub is_in_game : Phase → Bool
is_in_game in_game = true
is_in_game p = false

unfoldable pub is_scores : Phase → Bool
is_scores scores_shown = true
is_scores p = false

unfoldable pub is_host : Viewer → Bool
is_host host = true
is_host (player id) = false

-- The object `{ ...createRoom }`, with the code and the host's id that its dependencies gave.
unfoldable pub create_room : {S : Type 0} → S → Text → Text → Room S
create_room null code host_id = record {
  code = code;
  host_id = host_id;
  phase = lobby;
  players = [];
  tokens = [];
  selected_game_id = none;
  game_state = null;
  closed = false;
  session_scores = [];
  round = 0;
  score_ledger = [];
  game_config = undefined;
}

unfoldable pub token_owner : Text → Dict Text → Option Text
token_owner token [] = none
token_owner token ((id, secret) ∷ rest) =
    if same secret token then some id else token_owner token rest

unfoldable pub require_host : Viewer → Option RoomError
require_host actor = if is_host actor then none else some (plain not_host)

-- The name that a departed player's points are parked under.
unfoldable pub ledger_key : Unicode → Text → Text
ledger_key u nickname = u.lower nickname

module _ {S : Type 0} where
  unfoldable pub player_id_for_token : Room S → Text → Option Text
  player_id_for_token room token = token_owner token room.tokens

  unfoldable pub require_host_before_game : Room S → Viewer → Option RoomError
  require_host_before_game room actor = elim (require_host actor) [
    | some e ↦ some e
    | none ↦ if is_in_game room.phase then some (plain wrong_phase) else none
  ]

  -- Whether a reconnect token is given and belongs to a player.
  unfoldable pub resumes : Room S → Option Text → Bool
  resumes room none = false
  resumes room (some token) = elim (player_id_for_token room token) [
    | none ↦ false
    | some id ↦ true
  ]

  unfoldable pub is_selected : Room S → Text → Bool
  is_selected room game_id = elim room.selected_game_id [ none ↦ false | some id ↦ same id game_id ]

  unfoldable pub configure : Room S → Value → Viewer → Result (Next (Room S)) RoomError
  configure room config actor = elim (require_host_before_game room actor) [
    | some e ↦ err e
    | none ↦
        if same_json config room.game_config
        then ok kept
        else ok (fresh (record room { game_config = config; round = 0; session_scores = [] }))
  ]

-- The reclaim of a joiner: the room with the parked points moved into the tally.
unfoldable pub reclaim : {S : Type 0} → Text → Text → Room S → Room S
reclaim key id room = elim (lookup key room.score_ledger) [
  | none ↦ room
  | some parked ↦ record room {
    session_scores = insert id parked room.session_scores;
    score_ledger = omit key room.score_ledger;
  }
]

-- The ledger after a leave: the leaver's points under their nickname.
unfoldable pub park : Unicode → Option Player → Option ℕ → Dict ℕ → Dict ℕ
park u (some leaver) (some parked) ledger = insert (ledger_key u leaver.nickname) parked ledger
park u none parked ledger = ledger
park u (some leaver) none ledger = ledger

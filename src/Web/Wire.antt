-- ===== src/Web/Wire.antt =====
-- apps/web/src/transport/wire.ts and types.ts: the app's actions and frames, and their wire form.
use klatchr.Prelude.{ℕ, Bool, Option, none, some, List, [], ◌∷◌, Text, codes, includes}
use klatchr.Value.{Value, undefined, null}
use klatchr.Game.{Score, Viewer}
use klatchr.Room.{Phase}
use klatchr.Games.Catalogue.{AnyView}
use klatchr.Server.Events.{selects, configures, starts, ends}
use klatchr.Server.Wire.{Frame, FramePlayer}
use klatchr.Server.Messages.{ClientMessage, host_room, play_room, leave_room}

pub data Action : Type 0 where
  select_game : (game_id : Text) → Action
  configure_game : (config : Value) → Action
  start_game end_game leave : Action
  game_event : (event : Value) → Action

pub data ConnStatus : Type 0 where
  connecting live reconnecting : ConnStatus

-- What the protocol parses a server's text to; an error's message may be left out.
pub data ServerMessage : Type 0 where
  joined : (code player_id reconnect_token : Text) → ServerMessage
  opened : (code host_token : Text) → ServerMessage
  framed : (frame : Frame) → ServerMessage
  error : (code : Text) (message : Option Text) → ServerMessage
  pong : ServerMessage

pub record ViewFrame : Type 0 where
  pub code : Text
  pub phase : Phase
  pub viewer : Viewer
  pub players : List FramePlayer
  pub selected_game_id : Option Text
  pub game_view : Option AnyView
  pub scores : Option (List Score)
  pub session_scores : List Score
  pub round : ℕ
  pub rounds_total : ℕ

abbrev pub terminal : List Text
terminal =
    codes "SUPERSEDED"
    ∷ codes "ROOM_CLOSED"
    ∷ codes "NO_SUCH_ROOM"
    ∷ codes "BAD_HOST_TOKEN"
    ∷ codes "SERVER_FULL"
    ∷ codes "TOO_MANY_ROOMS"
    ∷ codes "ROOM_FULL"
    ∷ codes "EMPTY_NICKNAME"
    ∷ codes "JOIN_FAILED"
    ∷ []

unfoldable pub is_terminal : Option Text → Bool
is_terminal none = Bool.false
is_terminal (some message) = includes terminal message

unfoldable pub to_frame : Frame → Viewer → ViewFrame
to_frame frame viewer = record {
  code = frame.code;
  phase = frame.phase;
  viewer = viewer;
  players = frame.players;
  selected_game_id = frame.selected_game_id;
  game_view = frame.game_view;
  scores = frame.scores;
  session_scores = frame.session_scores;
  round = frame.round;
  rounds_total = frame.rounds_total;
}

-- `event ?? null`.
unfoldable pub or_null : Value → Value
or_null undefined = null
or_null event = event

unfoldable pub to_wire : Action → Text → ClientMessage
to_wire (select_game game_id) code = host_room code selects (some game_id) undefined
to_wire (configure_game config) code = host_room code configures none config
to_wire start_game code = host_room code starts none undefined
to_wire end_game code = host_room code ends none undefined
to_wire leave code = leave_room code
to_wire (game_event event) code = play_room code (or_null event)

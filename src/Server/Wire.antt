-- ===== src/Server/Wire.antt =====
-- packages/protocol/src/index.ts and apps/server/src/connection.ts: what the server sends, and what
-- else a session does to the outside.
use klatchr.Prelude.{ℕ, Bool, Option, List, Text, codes}
use klatchr.Game.{Score}
use klatchr.Room.{RoomErrorCode, Phase}
use klatchr.Games.Catalogue.{AnyView}
use klatchr.Server.Events.{UsageLine}

pub record FramePlayer : Type 0 where
  pub id : Text
  pub nickname : Text
  pub spectator : Bool

pub record Frame : Type 0 where
  pub code : Text
  pub phase : Phase
  pub players : List FramePlayer
  pub selected_game_id : Option Text
  pub game_view : Option AnyView
  pub scores : Option (List Score)
  pub session_scores : List Score
  pub round : ℕ
  pub rounds_total : ℕ

pub data Message : Type 0 where
  opened : (code host_token : Text) → Message
  joined : (code player_id reconnect_token : Text) → Message
  framed : Frame → Message
  failed : (code message : Text) → Message
  pong : Message

pub data Effect : Type 0 where
  send : ℕ → Message → Effect
  close : ℕ → Effect
  superseded : ℕ → Effect
  closed_out : (code : Text) (conns : List ℕ) → Effect
  usage : UsageLine → Effect

unfoldable pub error_name : RoomErrorCode → Text
error_name RoomErrorCode.room_full = codes "ROOM_FULL"
error_name RoomErrorCode.not_host = codes "NOT_HOST"
error_name RoomErrorCode.game_not_registered = codes "GAME_NOT_REGISTERED"
error_name RoomErrorCode.below_min_players = codes "BELOW_MIN_PLAYERS"
error_name RoomErrorCode.no_game_selected = codes "NO_GAME_SELECTED"
error_name RoomErrorCode.game_event_outside_game = codes "GAME_EVENT_OUTSIDE_GAME"
error_name RoomErrorCode.game_rejected = codes "GAME_REJECTED"
error_name RoomErrorCode.forbidden_event = codes "FORBIDDEN_EVENT"
error_name RoomErrorCode.empty_nickname = codes "EMPTY_NICKNAME"
error_name RoomErrorCode.session_complete = codes "SESSION_COMPLETE"
error_name RoomErrorCode.wrong_phase = codes "WRONG_PHASE"

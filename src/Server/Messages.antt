-- ===== src/Server/Messages.antt =====
-- packages/protocol/src/index.ts: the messages of a client, as the hub gets them. Parsing is a
-- parameter: `JSON.parse` of the engine and the schemas of the zod library.
use klatchr.Prelude.{Option, Text}
use klatchr.Value.{Value}
use klatchr.Server.Events.{HostAction}

pub data ClientMessage : Type 0 where
  open_room : (nickname : Text) → ClientMessage
  resume_room : (code host_token : Text) → ClientMessage
  join_room : (code nickname : Text) (reconnect_token : Option Text) → ClientMessage
  host_room :
      (code : Text) (action : HostAction) (game_id : Option Text) (config : Value) → ClientMessage
  play_room : (code : Text) (event : Value) → ClientMessage
  leave_room : (code : Text) → ClientMessage
  ping : ClientMessage

-- What becomes of a raw string.
pub data Parsed : Type 0 where
  no_json : Parsed
  no_message : Parsed
  parsed : ClientMessage → Parsed

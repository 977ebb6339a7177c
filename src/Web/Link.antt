-- ===== src/Web/Link.antt =====
-- apps/web/src/transport/socket.parts.ts, and the state of the transport of socket.ts. Of a timer
-- the state keeps whether it is pending, and of a socket the generation that it was made for; the
-- latest stands first. What the transport does to the world is its log, where a telling is one for
-- all listeners. A message is kept as what its text encodes.
use klatchr.Prelude.{ℕ, Bool, true, false, Option, none, some, List, [], ◌∷◌, ◌++◌, Text}
use klatchr.Game.{Viewer, host, player}
use klatchr.Server.Messages.{ClientMessage}
use klatchr.Web.Wire.{ConnStatus, connecting, live, reconnecting, ViewFrame}

abbrev pub base_backoff_ms : ℕ
base_backoff_ms = 500

abbrev pub max_backoff_ms : ℕ
max_backoff_ms = 8000

abbrev pub liveness_ms : ℕ
liveness_ms = 40000

abbrev pub connect_timeout_ms : ℕ
connect_timeout_ms = 8000

abbrev pub probe_ms : ℕ
probe_ms = 4000

pub data SocketInit : Type 0 where
  host_init : (nickname : Text) (resume : Option (Text × Text)) → SocketInit
  player_init : (code nickname : Text) (reconnect_token : Option Text) → SocketInit

pub data Notice : Type 0 where
  created : (socket : ℕ) → Notice
  sent : (socket : ℕ) (message : ClientMessage) → Notice
  closed : (socket : ℕ) → Notice
  status_told : ConnStatus → Notice
  frame_told : ViewFrame → Notice
  error_told : (code : Text) (message : Option Text) → Notice
  token_told : (reconnect_token : Text) → Notice
  host_told : (code host_token : Text) → Notice
  terminal_told : Text → Notice

pub record Link : Type 0 where
  pub init : SocketInit
  pub viewer : Viewer
  pub code : Option Text
  pub last : Option ViewFrame
  pub status : ConnStatus
  pub pending : List ClientMessage
  pub is_open : Bool
  pub attempt : ℕ
  pub awaiting_reconnect : Bool
  pub reconnect_token : Option Text
  pub host_token : Option Text
  pub keepalive : Bool
  pub stopped : Bool
  -- The pending backoff and watchdog with their delays, and the connect timeout with the
  -- generation that it is for.
  pub backoff : Option ℕ
  pub watchdog : Option ℕ
  pub connect_timeout : Option ℕ
  pub watching : Bool
  pub started : Bool
  pub generation : ℕ
  pub sockets : List ℕ
  pub log : List Notice

unfoldable pub init_viewer : SocketInit → Viewer
init_viewer (host_init nickname resume) = host
init_viewer (player_init code nickname token) = player []

unfoldable pub init_token : SocketInit → Option Text
init_token (host_init nickname resume) = none
init_token (player_init code nickname token) = token

unfoldable pub init_resume : SocketInit → Option (Text × Text)
init_resume (host_init nickname resume) = resume
init_resume (player_init code nickname token) = none

unfoldable pub new_link : SocketInit → Link
new_link init = record {
  init = init;
  viewer = init_viewer init;
  code = elim (init_resume init) [ none ↦ none | some seed ↦ some seed.0 ];
  last = none;
  status = connecting;
  pending = [];
  is_open = false;
  attempt = 0;
  awaiting_reconnect = false;
  reconnect_token = init_token init;
  host_token = elim (init_resume init) [ none ↦ none | some seed ↦ some seed.1 ];
  keepalive = false;
  stopped = false;
  backoff = none;
  watchdog = none;
  connect_timeout = none;
  watching = false;
  started = false;
  generation = 0;
  sockets = [];
  log = [];
}

unfoldable pub tell : Link → Notice → Link
tell l notice = record l { log = l.log ++ notice ∷ [] }

-- `this.socket`.
unfoldable pub newest : List ℕ → Option ℕ
newest [] = none
newest (socket ∷ sockets) = some socket

unfoldable pub is_status : ConnStatus → ConnStatus → Bool
is_status connecting connecting = true
is_status live live = true
is_status reconnecting reconnecting = true
is_status status other = false

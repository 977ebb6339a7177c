-- ===== src/Web/Transport.antt =====
-- apps/web/src/transport/socket.ts: the transport of one viewer over one WebSocket at a time, with
-- its retries. A socket's event names the generation of its socket, and a timer that is not
-- pending has no event.
pub mod Life
pub mod Status
pub mod Sound
pub mod Drops
pub mod Opens
pub mod Kept
pub mod Messages
pub mod Sockets
pub mod Timers
pub mod Always
pub mod Promises
pub mod Delivery
pub mod Idle
pub mod Delivered
pub mod Asked
use klatchr.Prelude.{
  ℕ, suc, ◌*◌, ◌^◌, min, ◌==◌, Bool, true, false, not, ◌&&◌, Option, none, some, List, [], ◌∷◌,
  ◌++◌, Text, if◌then◌else◌,
}
use klatchr.Game.{player}
use klatchr.Server.Messages.{ClientMessage, open_room, resume_room, join_room, ping}
use klatchr.Web.Wire.{
  Action, ConnStatus, live, reconnecting, ServerMessage, joined, opened, framed, error, pong,
  is_terminal, to_frame, to_wire,
}
use klatchr.Web.Link.{
  Link, SocketInit, host_init, player_init, created, sent, closed, status_told, frame_told,
  error_told, token_told, host_told, terminal_told, base_backoff_ms, max_backoff_ms, liveness_ms,
  connect_timeout_ms, probe_ms, tell, is_status, newest,
}

unfoldable pub transmit : Link → ClientMessage → Link
transmit l message = elim (newest l.sockets) [
  | none ↦ l
  | some socket ↦ tell l (sent socket message)
]

unfoldable pub close_socket : Link → Link
close_socket l = elim (newest l.sockets) [ none ↦ l | some socket ↦ tell l (closed socket) ]

unfoldable pub connect : Link → Link
connect l =
    tell
      (record l {
        is_open = false;
        generation = suc l.generation;
        sockets = suc l.generation ∷ l.sockets;
        connect_timeout = some (suc l.generation);
      })
      (created (suc l.generation))

unfoldable pub ensure_started : Link → Link
ensure_started l =
    if not l.started && not l.stopped
    then connect (record l { started = true; watching = true })
    else l

unfoldable pub set_status : Link → ConnStatus → Link
set_status l status =
    if is_status l.status status
    then l
    else tell (record l { status = status }) (status_told status)

unfoldable pub dispatch : Link → ClientMessage → Link
dispatch l message =
    let begun = ensure_started l in
    if l.stopped
    then l
    else if not l.is_open
    then record begun { pending = begun.pending ++ message ∷ [] }
    else transmit l message

unfoldable pub dispatch_all : Link → List ClientMessage → Link
dispatch_all l [] = l
dispatch_all l (message ∷ messages) = dispatch_all (dispatch l message) messages

unfoldable pub backoff_delay : ℕ → ℕ
backoff_delay attempt = min max_backoff_ms (base_backoff_ms * 2 ^ attempt)

unfoldable pub handle_drop : Link → Link
handle_drop l =
    let told = set_status (record l { is_open = false; awaiting_reconnect = true }) reconnecting in
    if l.stopped then l else if l.awaiting_reconnect then l else record told {
      attempt = suc told.attempt;
      watchdog = none;
      connect_timeout = none;
      backoff = some (backoff_delay told.attempt);
    }

unfoldable pub force_reconnect : Link → Link
force_reconnect l = close_socket (handle_drop (record l { generation = suc l.generation }))

unfoldable pub arm_watchdog : Link → ℕ → Link
arm_watchdog l ms = record l { watchdog = some ms }

unfoldable pub reconnect_now : Link → Link
reconnect_now l =
    if l.stopped
    then l
    else if not l.awaiting_reconnect
    then l
    else connect (record l { backoff = none; awaiting_reconnect = false })

unfoldable pub handshake : Link → ClientMessage
handshake l = elim l.init [
  | host_init nickname resume ↦ elim l.code [
    | none ↦ open_room nickname
    | some code ↦ elim l.host_token [
      | none ↦ open_room nickname
      | some token ↦ resume_room code token
    ]
  ]
  | player_init code nickname token ↦ join_room code nickname l.reconnect_token
]

unfoldable pub start_keepalive : Link → Link
start_keepalive l = if l.keepalive then l else record l { keepalive = true }

unfoldable pub flush_pending : Link → Link
flush_pending l = dispatch_all (record l { pending = [] }) l.pending

unfoldable pub handle_open : Link → Link
handle_open l =
    let up =
      set_status
        (record l {
          connect_timeout = none;
          watchdog = some liveness_ms;
          is_open = true;
          attempt = 0;
          awaiting_reconnect = false;
        })
        live in
    start_keepalive (flush_pending (dispatch up (handshake up)))

unfoldable pub stop : Link → Link
stop l = close_socket (record l {
  stopped = true;
  is_open = false;
  keepalive = false;
  backoff = none;
  watchdog = none;
  connect_timeout = none;
  watching = false;
})

-- `onTerminal` with the message, which is there.
unfoldable pub tell_terminal : Link → Option Text → Link
tell_terminal l none = l
tell_terminal l (some message) = tell l (terminal_told message)

unfoldable pub receive : Link → ServerMessage → Link
receive l (joined code id token) =
    tell (record l { viewer = player id; code = some code; reconnect_token = some token })
      (token_told token)
receive l (opened code token) =
    tell (record l { code = some code; host_token = some token }) (host_told code token)
receive l (framed frame) =
    let view = to_frame frame l.viewer in
    tell (record l { code = some frame.code; last = some view }) (frame_told view)
receive l (error code message) =
    tell (if is_terminal message then tell_terminal (stop l) message else l)
      (error_told code message)
receive l pong = l

-- The data of the message is parsed by the protocol: a text that it parses to no message is nothing.
unfoldable pub handle_message : Link → Option ServerMessage → Link
handle_message l inbound =
    let armed = arm_watchdog l liveness_ms in
    if l.stopped then l else elim inbound [ none ↦ armed | some message ↦ receive armed message ]

unfoldable pub send : Link → Action → Link
send l action = elim l.code [ none ↦ l | some code ↦ dispatch l (to_wire action code) ]

unfoldable pub subscribe : Link → Link
subscribe l =
    let l' = ensure_started l in elim l'.last [ none ↦ l' | some view ↦ tell l' (frame_told view) ]

unfoldable pub subscribe_status : Link → Link
subscribe_status l = let l' = ensure_started l in tell l' (status_told l'.status)

unfoldable pub subscribe_error : Link → Link
subscribe_error l = ensure_started l

unfoldable pub dispose : Link → Link
dispose l = stop l

-- The device shows the page again.
unfoldable pub visible : Link → Link
visible l = if l.is_open then arm_watchdog (transmit l ping) probe_ms else reconnect_now l

unfoldable pub backoff_due : Link → Link
backoff_due l = connect (record l { backoff = none; awaiting_reconnect = false })

-- The connect timeout of a generation runs out.
unfoldable pub connect_due : Link → ℕ → Link
connect_due l generation =
    let l' = record l { connect_timeout = none } in
    if (generation == l.generation) && not l.is_open then force_reconnect l' else l'

-- The watchdog runs out; a hidden page is given more time.
unfoldable pub watchdog_due : Link → (hidden : Bool) → Link
watchdog_due l true = arm_watchdog l liveness_ms
watchdog_due l false =
    let l' = record l { watchdog = none } in if l.is_open then force_reconnect l' else l'

unfoldable pub keepalive_due : Link → Link
keepalive_due l = if l.is_open then transmit l ping else l

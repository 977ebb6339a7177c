-- ===== src/Web/Transport/Idle.antt =====
-- The events of a transport that neither send an action nor queue one.
use klatchr.Prelude.{
  ℕ, ◌≡◌, ◌≢◌, Bool, true, false, not, ◌==◌, ◌&&◌, Option, none, some, arith, refl, if_keeps, Text,
}
use klatchr.Server.Messages.{ping}
use klatchr.Web.Wire.{
  Action, ViewFrame, select_game, configure_game, start_game, end_game, leave, game_event, to_wire,
}
use klatchr.Web.Link.{Link, status_told, tell, frame_told}
use klatchr.Web.Transport.{
  ensure_started, arm_watchdog, reconnect_now, handshake, subscribe, subscribe_status,
  subscribe_error, dispose, visible, backoff_due, connect_due, watchdog_due, keepalive_due,
}
use klatchr.Web.Transport.Life.{
  Event, happen, subscribes, subscribes_status, subscribes_error, disposes, sends, opens, receives,
  drops, backoff_ends, connect_ends, keepalive_ends, watchdog_ends, shows, comes_online,
}
use klatchr.Web.Transport.Delivery.{
  is_action, actions_of, Idle, tell-Idle, then-Idle, transmit-Idle, connect-Idle,
  ensure_started-Idle, handle_drop-Idle, force_reconnect-Idle, reconnect_now-Idle, stop-Idle,
  handle_message-Idle,
}

pub to_wire-action : (action : Action) (code : Text) → is_action (to_wire action code) ≡ true
unfolding to_wire is_action
to_wire-action (select_game game_id) code = refl
to_wire-action (configure_game config) code = refl
to_wire-action start_game code = refl
to_wire-action end_game code = refl
to_wire-action leave code = refl
to_wire-action (game_event event) code = refl

pub handshake-is_action : (l : Link) → is_action (handshake l) ≡ false
unfolding handshake is_action
handshake-is_action l = ground arith

shown-Idle :
    (l : Link) (last : Option ViewFrame)
    → Idle l (elim last [ none ↦ l | some view ↦ tell l (frame_told view) ])
unfolding actions_of
shown-Idle l none = (refl, refl)
shown-Idle l (some view) = tell-Idle l (frame_told view) refl

subscribe-Idle : (l : Link) → Idle l (subscribe l)
unfolding subscribe
subscribe-Idle l =
    let begun : Link = ensure_started l in
    then-Idle l begun (subscribe l) (ensure_started-Idle l) (shown-Idle begun begun.last)

subscribe_status-Idle : (l : Link) → Idle l (subscribe_status l)
unfolding subscribe_status actions_of
subscribe_status-Idle l =
    let begun : Link = ensure_started l in
    then-Idle l begun (tell begun (status_told begun.status)) (ensure_started-Idle l)
      (tell-Idle begun _ refl)

visible-Idle : (l : Link) → Idle l (visible l)
unfolding visible arm_watchdog is_action
visible-Idle l =
    if_keeps (Idle l) l.is_open _ (reconnect_now l) (transmit-Idle l ping refl)
      (reconnect_now-Idle l)

connect_due-Idle : (l : Link) (generation : ℕ) → Idle l (connect_due l generation)
unfolding connect_due
connect_due-Idle l generation =
    if_keeps (Idle l) ((generation == l.generation) && not l.is_open) _ _
      (force_reconnect-Idle (record l { connect_timeout = none })) (refl, refl)

watchdog_due-Idle : (l : Link) (hidden : Bool) → Idle l (watchdog_due l hidden)
unfolding watchdog_due arm_watchdog
watchdog_due-Idle l true = (refl, refl)
watchdog_due-Idle l false =
    if_keeps (Idle l) l.is_open _ _ (force_reconnect-Idle (record l { watchdog = none }))
      (refl, refl)

keepalive_due-Idle : (l : Link) → Idle l (keepalive_due l)
unfolding keepalive_due is_action
keepalive_due-Idle l = if_keeps (Idle l) l.is_open _ l (transmit-Idle l ping refl) (refl, refl)

backoff-Idle :
    (l : Link) (due : Option ℕ) → Idle l (elim due [ none ↦ l | some ms ↦ backoff_due l ])
unfolding backoff_due
backoff-Idle l none = (refl, refl)
backoff-Idle l (some ms) = connect-Idle (record l { backoff = none; awaiting_reconnect = false })

timeout-Idle :
    (l : Link) (due : Option ℕ)
    → Idle l (elim due [ none ↦ l | some socket ↦ connect_due l socket ])
timeout-Idle l none = (refl, refl)
timeout-Idle l (some socket) = connect_due-Idle l socket

watchdog-Idle :
    (l : Link) (hidden : Bool) (due : Option ℕ)
    → Idle l (elim due [ none ↦ l | some ms ↦ watchdog_due l hidden ])
watchdog-Idle l hidden none = (refl, refl)
watchdog-Idle l hidden (some ms) = watchdog_due-Idle l hidden

-- Every event but an action and an opening.
pub happen-Idle :
    (l : Link) (event : Event)
    → ((action : Action) → event ≢ sends action)
    → ((socket : ℕ) → event ≢ opens socket)
    → Idle l (happen l event)
unfolding happen subscribe_error dispose
happen-Idle l subscribes a o = subscribe-Idle l
happen-Idle l subscribes_status a o = subscribe_status-Idle l
happen-Idle l subscribes_error a o = ensure_started-Idle l
happen-Idle l disposes a o = stop-Idle l
happen-Idle l (sends action) a o = absurd (a action refl)
happen-Idle l (opens socket) a o = absurd (o socket refl)
happen-Idle l (receives socket inbound) a o =
    if_keeps (Idle l) (socket == l.generation) _ l (handle_message-Idle l inbound) (refl, refl)
happen-Idle l (drops socket) a o =
    if_keeps (Idle l) (socket == l.generation) _ l (handle_drop-Idle l) (refl, refl)
happen-Idle l backoff_ends a o = backoff-Idle l l.backoff
happen-Idle l connect_ends a o = timeout-Idle l l.connect_timeout
happen-Idle l keepalive_ends a o =
    if_keeps (Idle l) l.keepalive _ l (keepalive_due-Idle l) (refl, refl)
happen-Idle l (watchdog_ends hidden) a o = watchdog-Idle l hidden l.watchdog
happen-Idle l shows a o = if_keeps (Idle l) l.watching _ l (visible-Idle l) (refl, refl)
happen-Idle l comes_online a o =
    if_keeps (Idle l) l.watching _ l (reconnect_now-Idle l) (refl, refl)

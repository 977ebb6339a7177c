-- ===== src/Web/Transport/Delivery.antt =====
-- What becomes of the actions that a transport is asked to send.
use mathlib.Core.List.{append-nil, append_assoc}
use klatchr.Prelude.{
  ◌≡◌, ◌++◌, Bool, true, false, not, ◌&&◌, suc, Option, none, some, List, [], ◌∷◌, if◌then◌else◌,
  refl, sym, ap, ◌∙◌, Option-cases, inl, inr, if_keeps, if_false, Text,
}
use klatchr.Server.Messages.{
  ClientMessage, open_room, resume_room, join_room, host_room, play_room, leave_room, ping,
}
use klatchr.Web.Wire.{ConnStatus, ServerMessage, joined, opened, framed, error, pong, is_terminal}
use klatchr.Web.Link.{Link, newest, Notice, sent, closed, error_told, tell, is_status, liveness_ms}
use klatchr.Web.Transport.{
  transmit, close_socket, connect, ensure_started, set_status, handle_drop, force_reconnect,
  arm_watchdog, reconnect_now, stop, tell_terminal, receive, handle_message,
}

-- A message that carries an action, not a handshake and not a ping.
unfoldable pub is_action : ClientMessage → Bool
is_action (open_room nickname) = false
is_action (resume_room code token) = false
is_action (join_room code nickname token) = false
is_action (host_room code action game_id config) = true
is_action (play_room code event) = true
is_action (leave_room code) = true
is_action ping = false

unfoldable pub actions_of : Notice → List ClientMessage
actions_of (sent socket message) = if is_action message then message ∷ [] else []
actions_of notice = []

-- The actions that went out, in their order.
unfoldable pub actions_in : List Notice → List ClientMessage
actions_in [] = []
actions_in (notice ∷ log) = actions_of notice ++ actions_in log

pub actions_in-append :
    (log notices : List Notice) → actions_in (log ++ notices) ≡ actions_in log ++ actions_in notices
unfolding actions_in
actions_in-append [] notices = refl
actions_in-append (notice ∷ log) notices =
    ap (λ (xs : List ClientMessage). actions_of notice ++ xs) (actions_in-append log notices)
    ∙ sym (append_assoc (actions_of notice) (actions_in log) (actions_in notices))

-- A step that neither sends an action nor queues one.
abbrev pub Idle : Link → Link → Type 0
Idle l t = (actions_in t.log ≡ actions_in l.log) × (t.pending ≡ l.pending)

pub tell-Idle : (l : Link) (notice : Notice) → actions_of notice ≡ [] → Idle l (tell l notice)
unfolding tell actions_in
tell-Idle l notice none_sent = (
  actions_in-append l.log (notice ∷ [])
      ∙ ap (λ (xs : List ClientMessage). actions_in l.log ++ (xs ++ [])) none_sent
      ∙ append-nil (actions_in l.log),
  refl,
)

pub then-Idle : (l t u : Link) → Idle l t → Idle t u → Idle l u
then-Idle l t u p q = (q.0 ∙ p.0, q.1 ∙ p.1)

pub close_socket-Idle : (l : Link) → Idle l (close_socket l)
unfolding close_socket actions_of
close_socket-Idle l = elim (Option-cases (newest l.sockets)) [
  | inl none_made ↦ rw (none_made, close_socket) (refl, refl)
  | inr (socket, made) ↦ rw (made, close_socket) (tell-Idle l (closed socket) refl)
]

pub transmit-Idle :
    (l : Link) (message : ClientMessage) → is_action message ≡ false → Idle l (transmit l message)
unfolding transmit actions_of
transmit-Idle l message other = elim (Option-cases (newest l.sockets)) [
  | inl none_made ↦ rw (none_made, transmit) (refl, refl)
  | inr (socket, made) ↦
      rw (made, transmit) (tell-Idle l (sent socket message) (if_false _ _ _ other))
]

pub connect-Idle : (l : Link) → Idle l (connect l)
unfolding connect actions_of
connect-Idle l = tell-Idle _ _ refl

pub ensure_started-Idle : (l : Link) → Idle l (ensure_started l)
unfolding ensure_started
ensure_started-Idle l =
    if_keeps (Idle l) (not l.started && not l.stopped) _ l (connect-Idle _) (refl, refl)

set_status-Idle : (l : Link) (status : ConnStatus) → Idle l (set_status l status)
unfolding set_status actions_of
set_status-Idle l status =
    if_keeps (Idle l) (is_status l.status status) l _ (refl, refl) (tell-Idle _ _ refl)

pub handle_drop-Idle : (l : Link) → Idle l (handle_drop l)
unfolding handle_drop
handle_drop-Idle l =
    if_keeps (Idle l) l.stopped l _ (refl, refl)
      (if_keeps (Idle l) l.awaiting_reconnect l _ (refl, refl) (set_status-Idle _ _))

pub force_reconnect-Idle : (l : Link) → Idle l (force_reconnect l)
unfolding force_reconnect
force_reconnect-Idle l =
    let dropped : Link = handle_drop (record l { generation = suc l.generation }) in
    then-Idle l dropped (close_socket dropped)
      (handle_drop-Idle (record l { generation = suc l.generation })) (close_socket-Idle dropped)

pub reconnect_now-Idle : (l : Link) → Idle l (reconnect_now l)
unfolding reconnect_now
reconnect_now-Idle l =
    if_keeps (Idle l) l.stopped l _ (refl, refl)
      (if_keeps (Idle l) (not l.awaiting_reconnect) l _ (refl, refl) (connect-Idle _))

pub stop-Idle : (l : Link) → Idle l (stop l)
unfolding stop
stop-Idle l = close_socket-Idle _

tell_terminal-Idle : (l : Link) (message : Option Text) → Idle l (tell_terminal l message)
unfolding tell_terminal actions_of
tell_terminal-Idle l none = (refl, refl)
tell_terminal-Idle l (some message) = tell-Idle _ _ refl

receive-Idle : (l : Link) (message : ServerMessage) → Idle l (receive l message)
unfolding receive actions_of
receive-Idle l (joined code id token) = tell-Idle _ _ refl
receive-Idle l (opened code token) = tell-Idle _ _ refl
receive-Idle l (framed frame) = tell-Idle _ _ refl
receive-Idle l (error code message) =
    let over : Link = tell_terminal (stop l) message in
    let after : Link = if is_terminal message then over else l in
    then-Idle l after (tell after (error_told code message))
      (if_keeps (Idle l) (is_terminal message) over l
        (then-Idle l (stop l) over (stop-Idle l) (tell_terminal-Idle (stop l) message))
        (refl, refl))
      (tell-Idle after (error_told code message) refl)
receive-Idle l pong = (refl, refl)

taken-Idle :
    (l : Link) (inbound : Option ServerMessage)
    → Idle l (elim inbound [ none ↦ l | some message ↦ receive l message ])
taken-Idle l none = (refl, refl)
taken-Idle l (some message) = receive-Idle l message

pub handle_message-Idle :
    (l : Link) (inbound : Option ServerMessage) → Idle l (handle_message l inbound)
unfolding handle_message arm_watchdog
handle_message-Idle l inbound =
    if_keeps (Idle l) l.stopped l _ (refl, refl) (taken-Idle (arm_watchdog l liveness_ms) inbound)

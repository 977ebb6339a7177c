-- ===== src/Web/Transport/Promises.antt =====
-- What a transport promises: it heals itself while it runs, and is silent when it has been stopped.
use klatchr.Prelude.{
  ℕ, ◌≡◌, ◌≤◌, ◌++◌, Bool, true, false, not, ◌&&◌, Option, none, some, List, [], ◌∷◌, map, arith,
  refl, sym, subst, ap, ◌∙◌, ◌==◌, Option-cases, Bool-cases, inl, inr, ◌⊎◌, if_keeps, if_true,
  if_false, ==_iff, Text,
}
use klatchr.Server.Messages.{ClientMessage}
use klatchr.Web.Wire.{Action, ViewFrame, live, to_wire}
use klatchr.Web.Link.{
  Link, SocketInit, newest, Notice, sent, closed, tell, frame_told, status_told, max_backoff_ms,
}
use klatchr.Web.Transport.{
  close_socket, ensure_started, dispatch, stop, dispose, handle_drop, handle_message, handshake,
  send, subscribe, subscribe_status, subscribe_error,
}
use klatchr.Web.Transport.Life.{
  elem, Event, happen, can_happen, Life, subscribes, subscribes_status, subscribes_error, disposes,
  sends, opens, receives, drops, backoff_ends, connect_ends, keepalive_ends, watchdog_ends, shows,
  comes_online,
}
use klatchr.Web.Transport.Status.{status_notice}
use klatchr.Web.Transport.Sound.{armed, delay_of}
use klatchr.Web.Transport.Opens.{opened_link, handle_open_lem}
use klatchr.Web.Transport.Always.{Life-Sound, now_can}

-- A transport that has started and has not been stopped is never stuck. Either it is open, with the
-- watchdog and the keepalive running and no message waiting; or it waits, with a backoff pending of
-- at most eight seconds; or it connects, with a timeout pending for the newest socket.
pub Life-armed :
    (init : SocketInit) (l : Link) (dropped : List ℕ)
    → Life init l dropped
    → l.started ≡ true
    → l.stopped ≡ false
    → ((l.is_open ≡ true) × (armed l.watchdog ≡ true) × (l.keepalive ≡ true) × (l.pending ≡ []))
      ⊎ ((l.awaiting_reconnect ≡ true)
          × (l.is_open ≡ false)
          × (armed l.backoff ≡ true)
          × (delay_of l.backoff ≤ max_backoff_ms))
      ⊎ ((l.is_open ≡ false)
          × (l.connect_timeout ≡ some l.generation)
          × (newest l.sockets ≡ some l.generation))
Life-armed init l dropped life started running =
    let v = Life-Sound init l dropped life in
    elim (Bool-cases l.is_open) [
      | inl up ↦ inl (up, (v.serving up).1, (v.serving up).2, (v.serving up).3)
      | inr down ↦ elim (Bool-cases l.awaiting_reconnect) [
        | inl waits ↦ inr (inl (waits, down, (v.waiting waits running).0, v.bounded))
        | inr free ↦
            let opening = v.opening started running free down in
            inr (inr (down, opening.0, v.latest opening.1))
      ]
    ]

-- When the newest socket opens, the handshake is sent on it first, and then the messages that
-- waited, in their order; none waits any more.
pub Life-opens :
    (init : SocketInit) (l : Link) (dropped : List ℕ)
    → Life init l dropped
    → can_happen l dropped (opens l.generation) ≡ true
    → ((happen l (opens l.generation)).log
        ≡ ((l.log ++ status_notice l.status live) ++ sent l.generation (handshake l) ∷ [])
          ++ map (sent l.generation) l.pending)
      × ((happen l (opens l.generation)).pending ≡ [])
      × ((happen l (opens l.generation)).is_open ≡ true)
unfolding happen can_happen opened_link
Life-opens init l dropped life can =
    let v = Life-Sound init l dropped life in
    let made : elem l.generation l.sockets ≡ true = ground arith in
    let running : l.stopped ≡ false = ground (arith, v.ended) in
    let up : happen l (opens l.generation) ≡ opened_link l l.generation =
      if_true _ _ _ ((==_iff l.generation l.generation).1 refl)
      ∙ handle_open_lem l l.generation running (v.latest made) in
    (ap (λ (t : Link). t.log) up, ap (λ (t : Link). t.pending) up, ap (λ (t : Link). t.is_open) up)

-- The messages that a log sends.
unfoldable pub messages_in : List Notice → List ClientMessage
messages_in [] = []
messages_in (sent socket message ∷ log) = message ∷ messages_in log
messages_in (notice ∷ log) = messages_in log

unfoldable pub is_sent : Notice → Bool
is_sent (sent socket message) = true
is_sent notice = false

messages_in-tell :
    (log : List Notice) (notice : Notice)
    → is_sent notice ≡ false
    → messages_in (log ++ notice ∷ []) ≡ messages_in log
unfolding messages_in is_sent
messages_in-tell [] notice other = ground arith
messages_in-tell (n ∷ log) notice other = ground (arith, messages_in-tell log notice)

abbrev Quiet : Link → Link → Type 0
Quiet l t = (t.stopped ≡ true) × (t.sockets ≡ l.sockets) × (messages_in t.log ≡ messages_in l.log)

tell-Quiet :
    (l : Link) (notice : Notice)
    → l.stopped ≡ true
    → is_sent notice ≡ false
    → Quiet l (tell l notice)
unfolding tell
tell-Quiet l notice over other = (over, refl, messages_in-tell l.log notice other)

stop-Quiet : (l : Link) → Quiet l (stop l)
unfolding stop close_socket is_sent tell
stop-Quiet l = elim (Option-cases (newest l.sockets)) [
  | inl none_made ↦ rw (none_made, stop, close_socket) (refl, refl, refl)
  | inr (socket, made) ↦
      rw (made, stop, close_socket)
        (tell-Quiet (record l { stopped = true }) (closed socket) refl refl)
]

begin_stopped : (l : Link) → l.stopped ≡ true → ensure_started l ≡ l
unfolding ensure_started
begin_stopped l over = if_false (not l.started && not l.stopped) _ _ (ground arith)

shown-Quiet :
    (l : Link) (last : Option ViewFrame)
    → l.stopped ≡ true
    → Quiet l (elim last [ none ↦ l | some view ↦ tell l (frame_told view) ])
unfolding is_sent
shown-Quiet l none over = (over, refl, refl)
shown-Quiet l (some view) over = tell-Quiet l (frame_told view) over refl

sent-Quiet :
    (l : Link) (action : Action) (known : Option Text)
    → l.stopped ≡ true
    → Quiet l (elim known [ none ↦ l | some code ↦ dispatch l (to_wire action code) ])
unfolding dispatch
sent-Quiet l action none over = (over, refl, refl)
sent-Quiet l action (some code) over = subst (Quiet l) (sym (if_true _ _ _ over)) (over, refl, refl)

-- A transport that has been stopped stays stopped: whatever happens, it makes no socket and sends
-- no message.
pub Life-stopped :
    (init : SocketInit) (l : Link) (dropped : List ℕ) (event : Event)
    → Life init l dropped
    → l.stopped ≡ true
    → can_happen l dropped event ≡ true
    → let t = happen l event in
      (t.stopped ≡ true) × (t.sockets ≡ l.sockets) × (messages_in t.log ≡ messages_in l.log)
unfolding happen subscribe subscribe_status subscribe_error dispose send handle_message handle_drop
    can_happen is_sent
Life-stopped init l dropped subscribes life over can =
    subst (λ (t : Link). Quiet l (elim t.last [ none ↦ t | some view ↦ tell t (frame_told view) ]))
      (sym (begin_stopped l over)) (shown-Quiet l l.last over)
Life-stopped init l dropped subscribes_status life over can =
    subst (λ (t : Link). Quiet l (tell t (status_told t.status))) (sym (begin_stopped l over))
      (tell-Quiet l (status_told l.status) over refl)
Life-stopped init l dropped subscribes_error life over can =
    subst (Quiet l) (sym (begin_stopped l over)) (over, refl, refl)
Life-stopped init l dropped disposes life over can = stop-Quiet l
Life-stopped init l dropped (sends action) life over can = sent-Quiet l action l.code over
Life-stopped init l dropped (opens socket) life over can =
    elim (Bool-cases (socket == l.generation)) [
      | inl now ↦
          let v = Life-Sound init l dropped life in
          absurd (ground (arith, v.ended, now_can dropped l socket now can))
      | inr stale ↦ subst (Quiet l) (sym (if_false _ _ _ stale)) (over, refl, refl)
    ]
Life-stopped init l dropped (receives socket inbound) life over can =
    if_keeps (Quiet l) (socket == l.generation) _ l
      (subst (Quiet l) (sym (if_true _ _ _ over)) (over, refl, refl)) (over, refl, refl)
Life-stopped init l dropped (drops socket) life over can =
    if_keeps (Quiet l) (socket == l.generation) _ l
      (subst (Quiet l) (sym (if_true _ _ _ over)) (over, refl, refl)) (over, refl, refl)
Life-stopped init l dropped backoff_ends life over can =
    rw (((Life-Sound init l dropped life).silent over).3, happen) (over, refl, refl)
Life-stopped init l dropped connect_ends life over can =
    rw (((Life-Sound init l dropped life).silent over).5, happen) (over, refl, refl)
Life-stopped init l dropped keepalive_ends life over can =
    subst (Quiet l) (sym (if_false _ _ _ ((Life-Sound init l dropped life).silent over).1))
      (over, refl, refl)
Life-stopped init l dropped (watchdog_ends hidden) life over can =
    rw (((Life-Sound init l dropped life).silent over).4, happen) (over, refl, refl)
Life-stopped init l dropped shows life over can =
    subst (Quiet l) (sym (if_false _ _ _ ((Life-Sound init l dropped life).silent over).2))
      (over, refl, refl)
Life-stopped init l dropped comes_online life over can =
    subst (Quiet l) (sym (if_false _ _ _ ((Life-Sound init l dropped life).silent over).2))
      (over, refl, refl)

-- ===== src/Web/Transport/Messages.antt =====
-- The messages of a transport, in and out, keep what it keeps.
use klatchr.Prelude.{
  if_true, if_false, ℕ, ◌≡◌, true, false, not, Option, none, some, List, arith, refl, sym, subst,
  ◌∙◌, Option-cases, Bool-cases, inl, inr, Text,
}
use klatchr.Game.{Viewer, player}
use klatchr.Server.Messages.{ClientMessage}
use klatchr.Web.Wire.{
  Action, to_wire, is_terminal, ServerMessage, ViewFrame, to_frame, joined, opened, framed, error,
  pong,
}
use klatchr.Web.Link.{Link, tell, terminal_told, frame_told, error_told, liveness_ms}
use klatchr.Web.Transport.{
  connect, ensure_started, dispatch, arm_watchdog, reconnect_now, stop, tell_terminal, receive,
  handle_message, send, subscribe,
}
use klatchr.Web.Transport.Sound.{Sound, armed, tell-Sound, connect-Sound}
use klatchr.Web.Transport.Kept.{transmit-Sound, stop-Sound, ensure_started-Sound}

started_down : (l : Link) → l.is_open ≡ false → (ensure_started l).is_open ≡ false
unfolding ensure_started connect tell
started_down l down = ground arith

module _ {dropped : List ℕ} where
  -- A message of a running transport: only what it shows and its credentials change.
  pub armed-Sound :
      (l : Link) (ms : ℕ) → l.stopped ≡ false → Sound dropped l → Sound dropped (arm_watchdog l ms)
  unfolding arm_watchdog armed
  armed-Sound l ms running v = record {
    silent = λ h. absurd (cc);
    serving = λ h. ground (arith, v.serving h);
    waiting = v.waiting;
    bounded = v.bounded;
    steady = v.steady;
    opening = v.opening;
    idle = v.idle;
    watched = v.watched;
    latest = v.latest;
    below = v.below;
    ended = v.ended;
  }

  -- What the transport knows of its viewer and its room is not the concern of its timers.
  known-Sound :
      (l : Link) (viewer : Viewer) (code reconnect_token host_token : Option Text)
      (last : Option ViewFrame)
      → Sound dropped l
      → Sound dropped (record l {
        viewer = viewer;
        code = code;
        reconnect_token = reconnect_token;
        host_token = host_token;
        last = last;
      })
  known-Sound l viewer code reconnect_token host_token last v = record {
    silent = v.silent;
    serving = v.serving;
    waiting = v.waiting;
    bounded = v.bounded;
    steady = v.steady;
    opening = v.opening;
    idle = v.idle;
    watched = v.watched;
    latest = v.latest;
    below = v.below;
    ended = v.ended;
  }

  tell_terminal-Sound :
      (l : Link) (message : Option Text) → Sound dropped l → Sound dropped (tell_terminal l message)
  unfolding tell_terminal
  tell_terminal-Sound l none v = v
  tell_terminal-Sound l (some message) v = tell-Sound l (terminal_told message) v

  receive-Sound :
      (l : Link) (message : ServerMessage) → Sound dropped l → Sound dropped (receive l message)
  unfolding receive
  receive-Sound l (joined code id token) v =
      tell-Sound _ _ (known-Sound l (player id) (some code) (some token) l.host_token l.last v)
  receive-Sound l (opened code token) v =
      tell-Sound _ _ (known-Sound l l.viewer (some code) l.reconnect_token (some token) l.last v)
  receive-Sound l (framed frame) v = tell-Sound _ _ (
      known-Sound l l.viewer (some frame.code) l.reconnect_token l.host_token
        (some (to_frame frame l.viewer)) v)
  receive-Sound l (error code message) v = elim (Bool-cases (is_terminal message)) [
    | inl final ↦
        subst (λ (t : Link). Sound dropped (tell t (error_told code message)))
          (sym (if_true _ _ _ final))
          (tell-Sound _ _ (tell_terminal-Sound (stop l) message (stop-Sound l v)))
    | inr passing ↦
        subst (λ (t : Link). Sound dropped (tell t (error_told code message)))
          (sym (if_false _ _ _ passing)) (tell-Sound l _ v)
  ]
  receive-Sound l pong v = v

  taken :
      (l : Link) (inbound : Option ServerMessage)
      → Sound dropped l
      → Sound dropped (elim inbound [ none ↦ l | some message ↦ receive l message ])
  taken l none v = v
  taken l (some message) v = receive-Sound l message v

  pub handle_message-Sound :
      (l : Link) (inbound : Option ServerMessage)
      → Sound dropped l
      → Sound dropped (handle_message l inbound)
  unfolding handle_message
  handle_message-Sound l inbound v = elim (Bool-cases l.stopped) [
    | inl over ↦ subst (Sound dropped) (sym (if_true _ _ _ over)) v
    | inr running ↦
        subst (Sound dropped) (sym (if_false _ _ _ running))
          (taken _ inbound (armed-Sound l liveness_ms running v))
  ]

  pub reconnect_now-Sound :
      (l : Link) → l.watching ≡ true → Sound dropped l → Sound dropped (reconnect_now l)
  unfolding reconnect_now
  reconnect_now-Sound l watching v = elim (Bool-cases l.stopped) [
    | inl over ↦ subst (Sound dropped) (sym (if_true _ _ _ over)) v
    | inr running ↦ elim (Bool-cases (not l.awaiting_reconnect)) [
      | inl busy ↦ subst (Sound dropped) (sym (if_false _ _ _ running ∙ if_true _ _ _ busy)) v
      | inr waits ↦ subst (Sound dropped) (sym (if_false _ _ _ running ∙ if_false _ _ _ waits)) (
          connect-Sound (record l { backoff = none; awaiting_reconnect = false })
            (ground (arith, v.idle)) running watching refl refl v.below)
    ]
  ]

  queue-Sound :
      (l : Link) (messages : List ClientMessage)
      → l.is_open ≡ false
      → Sound dropped l
      → Sound dropped (record l { pending = messages })
  queue-Sound l messages down v = record {
    silent = v.silent;
    serving = λ h. absurd (cc);
    waiting = v.waiting;
    bounded = v.bounded;
    steady = v.steady;
    opening = v.opening;
    idle = v.idle;
    watched = v.watched;
    latest = v.latest;
    below = v.below;
    ended = v.ended;
  }

  dispatch-Sound :
      (l : Link) (message : ClientMessage) → Sound dropped l → Sound dropped (dispatch l message)
  unfolding dispatch
  dispatch-Sound l message v = elim (Bool-cases l.stopped) [
    | inl over ↦ subst (Sound dropped) (sym (if_true _ _ _ over)) v
    | inr running ↦ elim (Bool-cases (not l.is_open)) [
      | inl down ↦ subst (Sound dropped) (sym (if_false _ _ _ running ∙ if_true _ _ _ down)) (
          queue-Sound (ensure_started l) _ (started_down l (ground arith))
            (ensure_started-Sound l v))
      | inr up ↦
          subst (Sound dropped) (sym (if_false _ _ _ running ∙ if_false _ _ _ up))
            (transmit-Sound l message v)
    ]
  ]

  pub send-Sound : (l : Link) (action : Action) → Sound dropped l → Sound dropped (send l action)
  unfolding send
  send-Sound l action v = elim (Option-cases l.code) [
    | inl none_yet ↦ rw (none_yet, send) v
    | inr (code, known) ↦ rw (known, send) (dispatch-Sound l (to_wire action code) v)
  ]

  shown :
      (l : Link) (last : Option ViewFrame)
      → Sound dropped l
      → Sound dropped (elim last [ none ↦ l | some view ↦ tell l (frame_told view) ])
  shown l none v = v
  shown l (some view) v = tell-Sound l (frame_told view) v

  pub subscribe-Sound : (l : Link) → Sound dropped l → Sound dropped (subscribe l)
  unfolding subscribe
  subscribe-Sound l v = shown _ _ (ensure_started-Sound l v)

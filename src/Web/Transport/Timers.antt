-- ===== src/Web/Transport/Timers.antt =====
-- The timers and the device's events of a transport keep what it keeps.
use klatchr.Prelude.{
  if_true, if_false, if_keeps, ℕ, ◌≡◌, Bool, true, false, not, ◌&&◌, none, some, List, arith, refl,
  sym, subst, ◌==◌, Bool-cases, inl, inr,
}
use klatchr.Server.Messages.{ping}
use klatchr.Web.Link.{Link, tell, liveness_ms, probe_ms}
use klatchr.Web.Transport.{visible, backoff_due, connect_due, watchdog_due, keepalive_due, transmit}
use klatchr.Web.Transport.Sound.{Sound, connect-Sound}
use klatchr.Web.Transport.Drops.{force_reconnect-Sound}
use klatchr.Web.Transport.Kept.{transmit-Sound}
use klatchr.Web.Transport.Messages.{armed-Sound, reconnect_now-Sound}

still_running : (l : Link) → l.stopped ≡ false → (transmit l ping).stopped ≡ false
unfolding transmit tell
still_running l running = ground arith

module _ {dropped : List ℕ} where
  pub backoff_due-Sound :
      (l : Link) (ms : ℕ) → l.backoff ≡ some ms → Sound dropped l → Sound dropped (backoff_due l)
  unfolding backoff_due
  backoff_due-Sound l ms due v =
      let waits : l.awaiting_reconnect ≡ true = ground (arith, v.steady) in
      let running : l.stopped ≡ false = ground (arith, v.silent) in
      let started : l.started ≡ true = ground (arith, v.idle) in
      connect-Sound (record l { backoff = none; awaiting_reconnect = false }) started running
        (v.watched started running) refl refl v.below

  untimed-Sound :
      (l : Link) (generation : ℕ)
      → l.connect_timeout ≡ some generation
      → ((generation == l.generation) && not l.is_open) ≡ false
      → Sound dropped l
      → Sound dropped (record l { connect_timeout = none })
  untimed-Sound l generation due other v = record {
    silent = λ h. ground (arith, v.silent h);
    serving = v.serving;
    waiting = λ h k. ((v.waiting h k).0, refl);
    bounded = v.bounded;
    steady = v.steady;
    opening = λ a b c d. absurd (ground (arith, v.opening a b c d));
    idle = λ h. ground (arith, v.idle h);
    watched = v.watched;
    latest = v.latest;
    below = v.below;
    ended = v.ended;
  }

  pub connect_due-Sound :
      (l : Link) (generation : ℕ)
      → l.connect_timeout ≡ some generation
      → Sound dropped l
      → Sound dropped (connect_due l generation)
  unfolding connect_due
  connect_due-Sound l generation due v =
      elim (Bool-cases ((generation == l.generation) && not l.is_open)) [
        | inl stuck ↦
            let running : l.stopped ≡ false = ground (arith, v.silent) in
            let started : l.started ≡ true = ground (arith, v.idle) in
            subst (Sound dropped) (sym (if_true _ _ _ stuck)) (
              force_reconnect-Sound (record l { connect_timeout = none }) started
                (v.watched started running) running (ground (arith, v.waiting)) v.below)
        | inr other ↦
            subst (Sound dropped) (sym (if_false _ _ _ other))
              (untimed-Sound l generation due other v)
      ]

  unwatched-Sound :
      (l : Link)
      → l.is_open ≡ false
      → Sound dropped l
      → Sound dropped (record l { watchdog = none })
  unwatched-Sound l down v = record {
    silent = λ h. ground (arith, v.silent h);
    serving = λ h. absurd (cc);
    waiting = v.waiting;
    bounded = v.bounded;
    steady = v.steady;
    opening = v.opening;
    idle = v.idle;
    watched = v.watched;
    latest = v.latest;
    below = v.below;
    ended = v.ended;
  }

  pub watchdog_due-Sound :
      (l : Link) (ms : ℕ) (hidden : Bool)
      → l.watchdog ≡ some ms
      → Sound dropped l
      → Sound dropped (watchdog_due l hidden)
  unfolding watchdog_due
  watchdog_due-Sound l ms true due v = armed-Sound l liveness_ms (ground (arith, v.silent)) v
  watchdog_due-Sound l ms false due v = elim (Bool-cases l.is_open) [
    | inl up ↦
        let running : l.stopped ≡ false = ground (arith, v.silent) in
        let started : l.started ≡ true = ground (arith, v.idle) in
        subst (Sound dropped) (sym (if_true _ _ _ up)) (
          force_reconnect-Sound (record l { watchdog = none }) started (v.watched started running)
            running (v.serving up).0 v.below)
    | inr down ↦ subst (Sound dropped) (sym (if_false _ _ _ down)) (unwatched-Sound l down v)
  ]

  pub keepalive_due-Sound : (l : Link) → Sound dropped l → Sound dropped (keepalive_due l)
  unfolding keepalive_due
  keepalive_due-Sound l v = if_keeps (Sound dropped) l.is_open _ l (transmit-Sound l ping v) v

  pub visible-Sound : (l : Link) → l.watching ≡ true → Sound dropped l → Sound dropped (visible l)
  unfolding visible
  visible-Sound l watching v = elim (Bool-cases l.is_open) [
    | inl up ↦ subst (Sound dropped) (sym (if_true _ _ _ up)) (
        armed-Sound (transmit l ping) probe_ms (still_running l (ground (arith, v.silent)))
          (transmit-Sound l ping v))
    | inr down ↦
        subst (Sound dropped) (sym (if_false _ _ _ down)) (reconnect_now-Sound l watching v)
  ]

-- ===== src/Web/Transport/Kept.antt =====
-- The stop and the start of a transport keep what it keeps.
use klatchr.Prelude.{
  if_true, if_false, ℕ, ◌≡◌, true, false, not, ◌&&◌, none, List, [], ◌∷◌, arith, refl, sym, subst,
  Option-cases, Bool-cases, inl, inr,
}
use klatchr.Server.Messages.{ClientMessage}
use klatchr.Web.Link.{Link, newest, closed, sent, tell}
use klatchr.Web.Transport.{transmit, close_socket, ensure_started, stop}
use klatchr.Web.Transport.Life.{elem, closed_in}
use klatchr.Web.Transport.Sound.{Sound, delay_of, closed_in-append, tell-Sound, connect-Sound}

-- A generation that has a socket has the newest one.
newest_made : (sockets : List ℕ) (n : ℕ) → newest sockets ≡ none → elem n sockets ≡ false
unfolding newest elem
newest_made [] n h = refl
newest_made (m ∷ sockets) n h = absurd (cc)

-- A transport that has been stopped, and has closed its socket.
unfoldable halted : Link → Link
halted l = record l {
  stopped = true;
  is_open = false;
  keepalive = false;
  backoff = none;
  watchdog = none;
  connect_timeout = none;
  watching = false;
}

module _ {dropped : List ℕ} where
  pub transmit-Sound :
      (l : Link) (message : ClientMessage) → Sound dropped l → Sound dropped (transmit l message)
  unfolding transmit
  transmit-Sound l message v = elim (Option-cases (newest l.sockets)) [
    | inl none_made ↦ rw (none_made, transmit) v
    | inr (socket, made) ↦ rw (made, transmit) (tell-Sound l (sent socket message) v)
  ]

  stopped-Sound :
      (l : Link)
      → (elem l.generation l.sockets ≡ true → closed_in l.log l.generation ≡ true)
      → Sound dropped l
      → Sound dropped (halted l)
  unfolding halted delay_of
  stopped-Sound l over v = record {
    silent = λ h. (refl, refl, refl, refl, refl, refl);
    serving = λ h. absurd (cc);
    waiting = λ h k. absurd (cc);
    bounded = omega arith;
    steady = λ h. refl;
    opening = λ a b c d. absurd (cc);
    idle = λ h. ((v.idle h).0, refl, (v.idle h).2, refl, refl);
    watched = λ h k. absurd (cc);
    latest = v.latest;
    below = v.below;
    ended = λ h k. ground (arith, over k);
  }

  pub stop-Sound : (l : Link) → Sound dropped l → Sound dropped (stop l)
  unfolding stop close_socket tell halted closed_in
  stop-Sound l v = elim (Option-cases (newest l.sockets)) [
    | inl unmade ↦
        rw (unmade, stop, close_socket)
          (stopped-Sound l (λ k. absurd (ground (arith, newest_made l.sockets l.generation unmade)))
            v)
    | inr (socket, made) ↦
        rw (made, stop, close_socket)
          (stopped-Sound (tell l (closed socket))
            (λ k.
              ground (arith, v.latest k, closed_in-append l.log (closed socket ∷ []) l.generation))
            (tell-Sound l (closed socket) v))
  ]

  pub ensure_started-Sound : (l : Link) → Sound dropped l → Sound dropped (ensure_started l)
  unfolding ensure_started elem
  ensure_started-Sound l v = elim (Bool-cases (not l.started && not l.stopped)) [
    | inl new ↦
        let idle = v.idle (ground arith) in
        subst (Sound dropped) (sym (if_true _ _ _ new)) (
          connect-Sound (record l { started = true; watching = true }) refl (ground arith) refl
            idle.2 (v.steady idle.2) (λ n h. absurd (ground (arith, idle.0))))
    | inr old ↦ subst (Sound dropped) (sym (if_false _ _ _ old)) v
  ]

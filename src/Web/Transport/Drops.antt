-- ===== src/Web/Transport/Drops.antt =====
-- A drop of a transport's socket, by the browser or by the transport itself.
use klatchr.Prelude.{
  if_false, ℕ, suc, ◌≡◌, ◌≤◌, ◌++◌, true, false, none, some, List, arith, refl, sym, subst, ap,
  Option-cases, inl, inr, ◌∙◌,
}
use klatchr.Web.Wire.{reconnecting}
use klatchr.Web.Link.{Link, newest, closed}
use klatchr.Web.Transport.{backoff_delay, handle_drop, close_socket, force_reconnect}
use klatchr.Web.Transport.Life.{elem}
use klatchr.Web.Transport.Status.{status_notice, set_status_lem}
use klatchr.Web.Transport.Sound.{Sound, armed, delay_of, tell-Sound}

-- A transport that waits to connect again.
unfoldable pub waiting_link : Link → Link
waiting_link l = record l {
  is_open = false;
  awaiting_reconnect = true;
  status = reconnecting;
  log = l.log ++ status_notice l.status reconnecting;
  attempt = suc l.attempt;
  watchdog = none;
  connect_timeout = none;
  backoff = some (backoff_delay l.attempt);
}

pub handle_drop_lem :
    (l : Link) → l.stopped ≡ false → l.awaiting_reconnect ≡ false → handle_drop l ≡ waiting_link l
unfolding handle_drop waiting_link
handle_drop_lem l running free =
    if_false _ _ _ running
    ∙ if_false _ _ _ free
    ∙ ap
        (λ (t : Link). record t {
          attempt = suc t.attempt;
          watchdog = none;
          connect_timeout = none;
          backoff = some (backoff_delay t.attempt);
        })
        (set_status_lem (record l { is_open = false; awaiting_reconnect = true }) reconnecting)

module _ {dropped : List ℕ} where
  waiting_link-Sound :
      (l : Link)
      → l.started ≡ true
      → l.watching ≡ true
      → l.stopped ≡ false
      → ((n : ℕ) → elem n l.sockets ≡ true → n ≤ l.generation)
      → (elem l.generation l.sockets ≡ true → newest l.sockets ≡ some l.generation)
      → (elem l.generation l.sockets ≡ true → elem l.generation dropped ≡ true)
      → Sound dropped (waiting_link l)
  unfolding waiting_link armed delay_of backoff_delay
  waiting_link-Sound l started watching running below latest gone = record {
    silent = λ h. absurd (cc);
    serving = λ h. absurd (cc);
    waiting = λ h k. (refl, refl);
    bounded = ground arith;
    steady = λ h. absurd (cc);
    opening = λ a b c d. absurd (cc);
    idle = λ h. absurd (cc);
    watched = λ h k. watching;
    latest = latest;
    below = below;
    ended = λ h k. ground (arith, gone k);
  }

  -- A drop of a running transport that does not wait yet.
  pub handle_drop-Sound :
      (l : Link)
      → l.started ≡ true
      → l.watching ≡ true
      → l.stopped ≡ false
      → l.awaiting_reconnect ≡ false
      → ((n : ℕ) → elem n l.sockets ≡ true → n ≤ l.generation)
      → (elem l.generation l.sockets ≡ true → newest l.sockets ≡ some l.generation)
      → (elem l.generation l.sockets ≡ true → elem l.generation dropped ≡ true)
      → Sound dropped (handle_drop l)
  handle_drop-Sound l started watching running free below latest gone =
      subst (Sound dropped) (sym (handle_drop_lem l running free))
        (waiting_link-Sound l started watching running below latest gone)

  pub close_socket-Sound : (l : Link) → Sound dropped l → Sound dropped (close_socket l)
  unfolding close_socket
  close_socket-Sound l v = elim (Option-cases (newest l.sockets)) [
    | inl none_made ↦ rw (none_made, close_socket) v
    | inr (socket, made) ↦ rw (made, close_socket) (tell-Sound l (closed socket) v)
  ]

  pub force_reconnect-Sound :
      (l : Link)
      → l.started ≡ true
      → l.watching ≡ true
      → l.stopped ≡ false
      → l.awaiting_reconnect ≡ false
      → ((n : ℕ) → elem n l.sockets ≡ true → n ≤ l.generation)
      → Sound dropped (force_reconnect l)
  unfolding force_reconnect
  force_reconnect-Sound l started watching running free below =
      let fresh : elem (suc l.generation) l.sockets ≡ true → suc l.generation ≤ l.generation =
        below (suc l.generation) in
      close_socket-Sound _ (
        handle_drop-Sound (record l { generation = suc l.generation }) started watching running free
          (λ n h. omega (arith, below n h)) (λ h. absurd (omega (arith, fresh h)))
          (λ h. absurd (omega (arith, fresh h))))

-- ===== src/Web/Transport/Sound.antt =====
-- What a transport keeps in every state: which timers are pending, and what its socket can still do.
use klatchr.Prelude.{
  ℕ, ◌≡◌, ◌≤◌, ◌++◌, Bool, true, false, ◌||◌, Option, none, some, List, [], ◌∷◌, arith, refl,
}
use klatchr.Web.Wire.{live}
use klatchr.Web.Link.{
  Link, SocketInit, Notice, created, sent, closed, new_link, tell, newest, max_backoff_ms,
}
use klatchr.Web.Transport.{connect}
use klatchr.Web.Transport.Life.{elem, closed_in}

unfoldable pub armed : Option ℕ → Bool
armed none = false
armed (some ms) = true

unfoldable pub delay_of : Option ℕ → ℕ
delay_of none = 0
delay_of (some ms) = ms

pub record Sound (dropped : List ℕ) (l : Link) : Type 0 where
  pub silent :
      l.stopped ≡ true
      → (l.is_open ≡ false)
        × (l.keepalive ≡ false)
        × (l.watching ≡ false)
        × (l.backoff ≡ none)
        × (l.watchdog ≡ none)
        × (l.connect_timeout ≡ none)
  pub serving :
      l.is_open ≡ true
      → (l.awaiting_reconnect ≡ false)
        × (armed l.watchdog ≡ true)
        × (l.keepalive ≡ true)
        × (l.pending ≡ [])
        × (l.status ≡ live)
        × (elem l.generation l.sockets ≡ true)
  pub waiting :
      l.awaiting_reconnect ≡ true
      → l.stopped ≡ false
      → (armed l.backoff ≡ true) × (l.connect_timeout ≡ none)
  pub bounded : delay_of l.backoff ≤ max_backoff_ms
  pub steady : l.awaiting_reconnect ≡ false → l.backoff ≡ none
  pub opening :
      l.started ≡ true
      → l.stopped ≡ false
      → l.awaiting_reconnect ≡ false
      → l.is_open ≡ false
      → (l.connect_timeout ≡ some l.generation) × (elem l.generation l.sockets ≡ true)
  pub idle :
      l.started ≡ false
      → (l.sockets ≡ [])
        × (l.is_open ≡ false)
        × (l.awaiting_reconnect ≡ false)
        × (l.watching ≡ false)
        × (l.connect_timeout ≡ none)
  pub watched : l.started ≡ true → l.stopped ≡ false → l.watching ≡ true
  pub latest : elem l.generation l.sockets ≡ true → newest l.sockets ≡ some l.generation
  pub below : (n : ℕ) → elem n l.sockets ≡ true → n ≤ l.generation
  pub ended :
      (l.stopped || l.awaiting_reconnect) ≡ true
      → elem l.generation l.sockets ≡ true
      → (elem l.generation dropped || closed_in l.log l.generation) ≡ true

pub new_link-Sound : (init : SocketInit) → Sound [] (new_link init)
unfolding new_link elem newest delay_of
new_link-Sound init = record {
  silent = λ h. absurd (cc);
  serving = λ h. absurd (cc);
  waiting = λ h k. absurd (cc);
  bounded = omega arith;
  steady = λ h. refl;
  opening = λ a b c d. absurd (cc);
  idle = λ h. (refl, refl, refl, refl, refl);
  watched = λ h k. absurd (cc);
  latest = λ h. absurd (cc);
  below = λ n h. absurd (cc);
  ended = λ h k. absurd (cc);
}

pub closed_in-append :
    (log notices : List Notice) (n : ℕ)
    → closed_in (log ++ notices) n ≡ (closed_in log n || closed_in notices n)
unfolding closed_in
closed_in-append [] notices n = refl
closed_in-append (closed m ∷ log) notices n = ground (arith, closed_in-append log notices n)
closed_in-append (created m ∷ log) notices n = closed_in-append log notices n
closed_in-append (sent m x ∷ log) notices n = closed_in-append log notices n
closed_in-append (Notice.status_told x ∷ log) notices n = closed_in-append log notices n
closed_in-append (Notice.frame_told x ∷ log) notices n = closed_in-append log notices n
closed_in-append (Notice.error_told x y ∷ log) notices n = closed_in-append log notices n
closed_in-append (Notice.token_told x ∷ log) notices n = closed_in-append log notices n
closed_in-append (Notice.host_told x y ∷ log) notices n = closed_in-append log notices n
closed_in-append (Notice.terminal_told x ∷ log) notices n = closed_in-append log notices n

module _ {dropped : List ℕ} where
  pub tell-Sound : (l : Link) (notice : Notice) → Sound dropped l → Sound dropped (tell l notice)
  unfolding tell
  tell-Sound l notice v = record {
    silent = v.silent;
    serving = v.serving;
    waiting = v.waiting;
    bounded = v.bounded;
    steady = v.steady;
    opening = v.opening;
    idle = v.idle;
    watched = v.watched;
    latest = v.latest;
    below = v.below;
    ended = λ h k. ground (arith, v.ended h k, closed_in-append l.log (notice ∷ []) l.generation);
  }

  pub connect-Sound :
      (l : Link)
      → l.started ≡ true
      → l.stopped ≡ false
      → l.watching ≡ true
      → l.awaiting_reconnect ≡ false
      → l.backoff ≡ none
      → ((n : ℕ) → elem n l.sockets ≡ true → n ≤ l.generation)
      → Sound dropped (connect l)
  unfolding connect tell elem newest delay_of
  connect-Sound l started running watching free none_due below = record {
    silent = λ h. absurd (cc);
    serving = λ h. absurd (cc);
    waiting = λ h k. absurd (cc);
    bounded = ground arith;
    steady = λ h. none_due;
    opening = λ a b c d. (refl, ground arith);
    idle = λ h. absurd (cc);
    watched = λ h k. watching;
    latest = λ h. refl;
    below = λ n h. ground (arith, below n);
    ended = λ h k. absurd (ground arith);
  }

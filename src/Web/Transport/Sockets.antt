-- ===== src/Web/Transport/Sockets.antt =====
-- The events of a transport's sockets keep what it keeps.
use klatchr.Prelude.{
  if_true, if_false, ℕ, ◌≡◌, true, false, List, ◌∷◌, arith, sym, subst, ◌∙◌, Bool-cases, inl, inr,
}
use klatchr.Web.Link.{Link}
use klatchr.Web.Transport.{handle_open, handle_drop}
use klatchr.Web.Transport.Life.{elem, can_happen, opens}
use klatchr.Web.Transport.Sound.{Sound}
use klatchr.Web.Transport.Drops.{handle_drop-Sound}
use klatchr.Web.Transport.Opens.{handle_open_lem, opened_link-Sound}

pub more-Sound :
    (dropped : List ℕ) (l : Link) (socket : ℕ) → Sound dropped l → Sound (socket ∷ dropped) l
unfolding elem
more-Sound dropped l socket v = record {
  silent = v.silent;
  serving = v.serving;
  waiting = v.waiting;
  bounded = v.bounded;
  steady = v.steady;
  opening = v.opening;
  idle = v.idle;
  watched = v.watched;
  latest = v.latest;
  below = v.below;
  ended = λ h k. ground (arith, v.ended h k);
}

begun :
    (dropped : List ℕ) (l : Link)
    → Sound dropped l
    → elem l.generation l.sockets ≡ true
    → l.started ≡ true
unfolding elem
begun dropped l v made = elim (Bool-cases l.started) [
  | inl h ↦ h
  | inr new ↦ absurd (ground (arith, (v.idle new).0))
]

pub drop-Sound :
    (dropped : List ℕ) (l : Link)
    → elem l.generation l.sockets ≡ true
    → Sound dropped l
    → Sound (l.generation ∷ dropped) (handle_drop l)
unfolding elem handle_drop
drop-Sound dropped l made v = elim (Bool-cases l.stopped) [
  | inl over ↦
      subst (Sound (l.generation ∷ dropped)) (sym (if_true _ _ _ over))
        (more-Sound dropped l l.generation v)
  | inr running ↦ elim (Bool-cases l.awaiting_reconnect) [
    | inl waits ↦
        subst (Sound (l.generation ∷ dropped)) (sym (if_false _ _ _ running ∙ if_true _ _ _ waits))
          (more-Sound dropped l l.generation v)
    | inr free ↦
        let started = begun dropped l v made in
        handle_drop-Sound l started (v.watched started running) running free v.below v.latest
          (λ h. ground arith)
  ]
]

pub open-Sound :
    (dropped : List ℕ) (l : Link)
    → can_happen l dropped (opens l.generation) ≡ true
    → Sound dropped l
    → Sound dropped (handle_open l)
unfolding can_happen
open-Sound dropped l can v =
    let made : elem l.generation l.sockets ≡ true = ground arith in
    let running : l.stopped ≡ false = ground (arith, v.ended) in
    let free : l.awaiting_reconnect ≡ false = ground (arith, v.ended) in
    subst (Sound dropped) (sym (handle_open_lem l l.generation running (v.latest made)))
      (opened_link-Sound dropped l l.generation (begun dropped l v made) running free made v)

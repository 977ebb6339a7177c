-- ===== src/Web/Transport/Always.antt =====
-- What a transport keeps all its life.
use klatchr.Prelude.{
  ==_iff, if_true, if_false, if_keeps, ℕ, ◌≡◌, true, List, ◌∷◌, sym, subst, ◌==◌, Option-cases,
  Bool-cases, inl, inr,
}
use klatchr.Web.Link.{Link, SocketInit}
use klatchr.Web.Transport.{handle_drop, subscribe_status, subscribe_error, dispose}
use klatchr.Web.Transport.Life.{
  elem, Event, happen, can_happen, dropped_after, Life, begins, goes, subscribes, subscribes_status,
  subscribes_error, disposes, sends, opens, receives, drops, backoff_ends, connect_ends,
  keepalive_ends, watchdog_ends, shows, comes_online,
}
use klatchr.Web.Transport.Sound.{Sound, new_link-Sound, tell-Sound}
use klatchr.Web.Transport.Sockets.{drop-Sound, open-Sound, more-Sound}
use klatchr.Web.Transport.Timers.{
  backoff_due-Sound, connect_due-Sound, watchdog_due-Sound, keepalive_due-Sound, visible-Sound,
}
use klatchr.Web.Transport.Kept.{stop-Sound, ensure_started-Sound}
use klatchr.Web.Transport.Messages.{
  handle_message-Sound, send-Sound, subscribe-Sound, reconnect_now-Sound,
}

pub now_can :
    (dropped : List ℕ) (l : Link) (socket : ℕ)
    → (socket == l.generation) ≡ true
    → can_happen l dropped (opens socket) ≡ true
    → can_happen l dropped (opens l.generation) ≡ true
now_can dropped l socket now can =
    subst (λ n. can_happen l dropped (opens n) ≡ true) ((==_iff socket l.generation).0 now) can

now_dropped :
    (dropped : List ℕ) (l : Link) (socket : ℕ)
    → (socket == l.generation) ≡ true
    → can_happen l dropped (drops socket) ≡ true
    → Sound dropped l
    → Sound (socket ∷ dropped) (handle_drop l)
unfolding can_happen
now_dropped dropped l socket now can v =
    let same : socket ≡ l.generation = (==_iff socket l.generation).0 now in
    subst (λ n. Sound (n ∷ dropped) (handle_drop l)) (sym same)
      (drop-Sound dropped l (subst (λ n. elem n l.sockets ≡ true) same can) v)

subscribe_status-Sound :
    (dropped : List ℕ) (l : Link) → Sound dropped l → Sound dropped (subscribe_status l)
unfolding subscribe_status
subscribe_status-Sound dropped l v = tell-Sound _ _ (ensure_started-Sound l v)

happen-Sound :
    (dropped : List ℕ) (l : Link) (event : Event)
    → can_happen l dropped event ≡ true
    → Sound dropped l
    → Sound (dropped_after dropped event) (happen l event)
unfolding happen dropped_after subscribe_error dispose
happen-Sound dropped l subscribes can v = subscribe-Sound l v
happen-Sound dropped l subscribes_status can v = subscribe_status-Sound dropped l v
happen-Sound dropped l subscribes_error can v = ensure_started-Sound l v
happen-Sound dropped l disposes can v = stop-Sound l v
happen-Sound dropped l (sends action) can v = send-Sound l action v
happen-Sound dropped l (opens socket) can v = elim (Bool-cases (socket == l.generation)) [
  | inl now ↦
      subst (Sound dropped) (sym (if_true _ _ _ now))
        (open-Sound dropped l (now_can dropped l socket now can) v)
  | inr stale ↦ subst (Sound dropped) (sym (if_false _ _ _ stale)) v
]
happen-Sound dropped l (receives socket inbound) can v =
    if_keeps (Sound dropped) (socket == l.generation) _ l (handle_message-Sound l inbound v) v
happen-Sound dropped l (drops socket) can v = elim (Bool-cases (socket == l.generation)) [
  | inl now ↦
      subst (Sound (socket ∷ dropped)) (sym (if_true _ _ _ now))
        (now_dropped dropped l socket now can v)
  | inr stale ↦
      subst (Sound (socket ∷ dropped)) (sym (if_false _ _ _ stale)) (more-Sound dropped l socket v)
]
happen-Sound dropped l backoff_ends can v = elim (Option-cases l.backoff) [
  | inl none_due ↦ rw (none_due, happen) v
  | inr (ms, due) ↦ rw (due, happen) (backoff_due-Sound l ms due v)
]
happen-Sound dropped l connect_ends can v = elim (Option-cases l.connect_timeout) [
  | inl none_due ↦ rw (none_due, happen) v
  | inr (socket, due) ↦ rw (due, happen) (connect_due-Sound l socket due v)
]
happen-Sound dropped l keepalive_ends can v =
    if_keeps (Sound dropped) l.keepalive _ l (keepalive_due-Sound l v) v
happen-Sound dropped l (watchdog_ends hidden) can v = elim (Option-cases l.watchdog) [
  | inl none_due ↦ rw (none_due, happen) v
  | inr (ms, due) ↦ rw (due, happen) (watchdog_due-Sound l ms hidden due v)
]
happen-Sound dropped l shows can v = elim (Bool-cases l.watching) [
  | inl watching ↦ subst (Sound dropped) (sym (if_true _ _ _ watching)) (visible-Sound l watching v)
  | inr blind ↦ subst (Sound dropped) (sym (if_false _ _ _ blind)) v
]
happen-Sound dropped l comes_online can v = elim (Bool-cases l.watching) [
  | inl watching ↦
      subst (Sound dropped) (sym (if_true _ _ _ watching)) (reconnect_now-Sound l watching v)
  | inr blind ↦ subst (Sound dropped) (sym (if_false _ _ _ blind)) v
]

pub Life-Sound :
    (init : SocketInit) (l : Link) (dropped : List ℕ) → Life init l dropped → Sound dropped l
Life-Sound init _ _ begins = new_link-Sound init
Life-Sound init _ _ (goes {l} {dropped} event can life) =
    happen-Sound dropped l event can (Life-Sound init l dropped life)

-- ===== src/Web/Transport/Asked.antt =====
-- What becomes of the actions that a transport is asked to send.
use klatchr.Prelude.{
  ℕ, ◌≡◌, ◌++◌, true, false, ◌==◌, Option, none, some, List, [], ◌∷◌, if◌then◌else◌, arith, refl,
  sym, subst, ◌∙◌, Bool-cases, inl, inr, if_keeps, if_true, if_false, Text, ==_iff,
}
use klatchr.Server.Messages.{ClientMessage}
use klatchr.Web.Wire.{Action, to_wire}
use klatchr.Web.Link.{Link, SocketInit, new_link}
use klatchr.Web.Transport.{dispatch, send}
use klatchr.Web.Transport.Life.{
  elem, Event, happen, can_happen, Life, begins, goes, subscribes, subscribes_status,
  subscribes_error, disposes, sends, opens, receives, drops, backoff_ends, connect_ends,
  keepalive_ends, watchdog_ends, shows, comes_online,
}
use klatchr.Web.Transport.Sound.{Sound}
use klatchr.Web.Transport.Opens.{handle_open_lem}
use klatchr.Web.Transport.Always.{Life-Sound, now_can}
use klatchr.Web.Transport.Idle.{to_wire-action, happen-Idle}
use klatchr.Web.Transport.Delivery.{actions_in}
use klatchr.Web.Transport.Delivered.{Delivers, Idle-Delivers, opened-Delivers, dispatch-Delivers}

-- The wire messages of the actions that the owner has asked for: those of a running transport whose
-- room is known.
unfoldable pub asked_after : Link → Event → List ClientMessage → List ClientMessage
asked_after l (sends action) messages =
    if l.stopped
    then messages
    else elim l.code [ none ↦ messages | some code ↦ messages ++ to_wire action code ∷ [] ]
asked_after l event messages = messages

unfoldable pub asked :
    {init : SocketInit} {l : Link} {dropped : List ℕ} → Life init l dropped → List ClientMessage
asked begins = []
asked (goes {l} {dropped} event can life) = asked_after l event (asked life)

sent_to :
    (messages : List ClientMessage) (dropped : List ℕ) (l : Link) (action : Action)
    (known : Option Text)
    → Sound dropped l
    → Delivers messages l
    → Delivers
        (if l.stopped
          then messages
          else elim known [ none ↦ messages | some code ↦ messages ++ to_wire action code ∷ [] ])
        (elim known [ none ↦ l | some code ↦ dispatch l (to_wire action code) ])
unfolding dispatch
sent_to messages dropped l action none v d =
    if_keeps (λ xs. Delivers xs l) l.stopped messages messages d d
sent_to messages dropped l action (some code) v d = elim (Bool-cases l.stopped) [
  | inl over ↦
      subst (λ xs. Delivers xs (dispatch l (to_wire action code))) (sym (if_true _ _ _ over))
        (subst (Delivers messages) (sym (if_true _ _ _ over)) d)
  | inr running ↦
      subst (λ xs. Delivers xs (dispatch l (to_wire action code))) (sym (if_false _ _ _ running))
        (dispatch-Delivers messages dropped l (to_wire action code) v running
          (to_wire-action action code) d)
]

send-Delivers :
    (messages : List ClientMessage) (dropped : List ℕ) (l : Link) (action : Action)
    → Sound dropped l
    → Delivers messages l
    → Delivers (asked_after l (sends action) messages) (happen l (sends action))
unfolding happen send asked_after
send-Delivers messages dropped l action v d = sent_to messages dropped l action l.code v d

open-Delivers :
    (messages : List ClientMessage) (dropped : List ℕ) (l : Link) (socket : ℕ)
    → can_happen l dropped (opens socket) ≡ true
    → Sound dropped l
    → Delivers messages l
    → Delivers messages (happen l (opens socket))
unfolding happen can_happen
open-Delivers messages dropped l socket can v d = elim (Bool-cases (socket == l.generation)) [
  | inl now ↦
      let same : socket ≡ l.generation = (==_iff socket l.generation).0 now in
      let can' = now_can dropped l socket now can in
      let made : elem l.generation l.sockets ≡ true = ground arith in
      let running : l.stopped ≡ false = ground (arith, v.ended) in
      subst (Delivers messages)
        (sym (if_true _ _ _ now ∙ handle_open_lem l l.generation running (v.latest made)))
        (opened-Delivers messages l l.generation d)
  | inr stale ↦ subst (Delivers messages) (sym (if_false _ _ _ stale)) d
]

happen-Delivers :
    (messages : List ClientMessage) (dropped : List ℕ) (l : Link) (event : Event)
    → can_happen l dropped event ≡ true
    → Sound dropped l
    → Delivers messages l
    → Delivers (asked_after l event messages) (happen l event)
unfolding asked_after
happen-Delivers messages dropped l (sends action) can v d =
    send-Delivers messages dropped l action v d
happen-Delivers messages dropped l (opens socket) can v d =
    open-Delivers messages dropped l socket can v d
happen-Delivers messages dropped l subscribes can v d =
    Idle-Delivers messages l (happen l subscribes)
      (happen-Idle l subscribes (λ a h. absurd (cc)) (λ o h. absurd (cc))) d
happen-Delivers messages dropped l subscribes_status can v d =
    Idle-Delivers messages l (happen l subscribes_status)
      (happen-Idle l subscribes_status (λ a h. absurd (cc)) (λ o h. absurd (cc))) d
happen-Delivers messages dropped l subscribes_error can v d =
    Idle-Delivers messages l (happen l subscribes_error)
      (happen-Idle l subscribes_error (λ a h. absurd (cc)) (λ o h. absurd (cc))) d
happen-Delivers messages dropped l disposes can v d =
    Idle-Delivers messages l (happen l disposes)
      (happen-Idle l disposes (λ a h. absurd (cc)) (λ o h. absurd (cc))) d
happen-Delivers messages dropped l (receives socket inbound) can v d =
    Idle-Delivers messages l (happen l (receives socket inbound))
      (happen-Idle l (receives socket inbound) (λ a h. absurd (cc)) (λ o h. absurd (cc))) d
happen-Delivers messages dropped l (drops socket) can v d =
    Idle-Delivers messages l (happen l (drops socket))
      (happen-Idle l (drops socket) (λ a h. absurd (cc)) (λ o h. absurd (cc))) d
happen-Delivers messages dropped l backoff_ends can v d =
    Idle-Delivers messages l (happen l backoff_ends)
      (happen-Idle l backoff_ends (λ a h. absurd (cc)) (λ o h. absurd (cc))) d
happen-Delivers messages dropped l connect_ends can v d =
    Idle-Delivers messages l (happen l connect_ends)
      (happen-Idle l connect_ends (λ a h. absurd (cc)) (λ o h. absurd (cc))) d
happen-Delivers messages dropped l keepalive_ends can v d =
    Idle-Delivers messages l (happen l keepalive_ends)
      (happen-Idle l keepalive_ends (λ a h. absurd (cc)) (λ o h. absurd (cc))) d
happen-Delivers messages dropped l (watchdog_ends hidden) can v d =
    Idle-Delivers messages l (happen l (watchdog_ends hidden))
      (happen-Idle l (watchdog_ends hidden) (λ a h. absurd (cc)) (λ o h. absurd (cc))) d
happen-Delivers messages dropped l shows can v d =
    Idle-Delivers messages l (happen l shows)
      (happen-Idle l shows (λ a h. absurd (cc)) (λ o h. absurd (cc))) d
happen-Delivers messages dropped l comes_online can v d =
    Idle-Delivers messages l (happen l comes_online)
      (happen-Idle l comes_online (λ a h. absurd (cc)) (λ o h. absurd (cc))) d

Life-Delivers :
    (init : SocketInit) (l : Link) (dropped : List ℕ) (life : Life init l dropped)
    → Delivers (asked life) l
unfolding asked new_link actions_in
Life-Delivers init _ _ begins = (refl, refl)
Life-Delivers init _ _ (goes {l} {dropped} event can life) =
    happen-Delivers (asked life) dropped l event can (Life-Sound init l dropped life)
      (Life-Delivers init l dropped life)

-- After any life of a transport the actions that went out, in their order, and then those that
-- wait, are the actions that its owner has asked for while it ran and its room was known: no drop,
-- retry or timer loses, repeats or reorders one.
pub Life-asked :
    (init : SocketInit) (l : Link) (dropped : List ℕ) (life : Life init l dropped)
    → actions_in l.log ++ l.pending ≡ asked life
Life-asked init l dropped life = (Life-Delivers init l dropped life).0

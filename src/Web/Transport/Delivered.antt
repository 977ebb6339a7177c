-- ===== src/Web/Transport/Delivered.antt =====
-- What went out and what waits, as one list of actions.
use mathlib.Core.List.{append-nil, append_assoc}
use klatchr.Prelude.{
  filter-append, ℕ, ◌≡◌, ◌++◌, true, false, not, List, [], ◌∷◌, map, filter, arith, refl, sym,
  subst, ap, ap₂, ◌∙◌, Bool-cases, inl, inr, if_true, if_false,
}
use klatchr.Server.Messages.{ClientMessage}
use klatchr.Web.Wire.{ConnStatus, live}
use klatchr.Web.Link.{Link, sent, tell}
use klatchr.Web.Transport.{ensure_started, dispatch, handshake}
use klatchr.Web.Transport.Sound.{Sound}
use klatchr.Web.Transport.Opens.{opened_link, dispatch-open}
use klatchr.Web.Transport.Status.{status_notice}
use klatchr.Web.Transport.Idle.{handshake-is_action}
use klatchr.Web.Transport.Delivery.{
  is_action, actions_of, actions_in, actions_in-append, Idle, ensure_started-Idle,
}

actions_in-map :
    (socket : ℕ) (messages : List ClientMessage)
    → actions_in (map (sent socket) messages) ≡ filter is_action messages
unfolding actions_in actions_of
actions_in-map socket [] = refl
actions_in-map socket (message ∷ messages) = ground (arith, actions_in-map socket messages)

actions_in-status : (before after : ConnStatus) → actions_in (status_notice before after) ≡ []
unfolding actions_in actions_of status_notice
actions_in-status before after = ground arith

-- What went out and what waits is what was asked for, and all that waits is an action.
abbrev pub Delivers : List ClientMessage → Link → Type 0
Delivers messages l =
    (actions_in l.log ++ l.pending ≡ messages) × (filter is_action l.pending ≡ l.pending)

pub Idle-Delivers :
    (messages : List ClientMessage) (l t : Link)
    → Idle l t
    → Delivers messages l
    → Delivers messages t
Idle-Delivers messages l t i d = (
  ap₂ (λ (xs ys : List ClientMessage). xs ++ ys) i.0 i.1 ∙ d.0,
  subst (λ xs. filter is_action xs ≡ xs) (sym i.1) d.1,
)

queued-Delivers :
    (messages : List ClientMessage) (l : Link) (message : ClientMessage)
    → is_action message ≡ true
    → Delivers messages l
    → Delivers (messages ++ message ∷ []) (record l { pending = l.pending ++ message ∷ [] })
queued-Delivers messages l message action d = (
  sym (append_assoc (actions_in l.log) l.pending (message ∷ []))
      ∙ ap (λ (xs : List ClientMessage). xs ++ message ∷ []) d.0,
  filter-append is_action l.pending (message ∷ [])
      ∙ ap₂ (λ (xs ys : List ClientMessage). xs ++ ys) d.1 (if_true _ _ _ action),
)

sent-Delivers :
    (messages : List ClientMessage) (l : Link) (message : ClientMessage) (socket : ℕ)
    → is_action message ≡ true
    → l.pending ≡ []
    → Delivers messages l
    → Delivers (messages ++ message ∷ []) (tell l (sent socket message))
unfolding tell actions_in actions_of
sent-Delivers messages l message socket action empty d =
    let out : actions_in (l.log ++ sent socket message ∷ []) ≡ actions_in l.log ++ message ∷ [] =
      actions_in-append l.log (sent socket message ∷ [])
      ∙ ap (λ (xs : List ClientMessage). actions_in l.log ++ (xs ++ [])) (if_true _ _ _ action) in
    let before : actions_in l.log ≡ messages =
      sym (append-nil (actions_in l.log))
      ∙ ap (λ (xs : List ClientMessage). actions_in l.log ++ xs) (sym empty)
      ∙ d.0 in
    (
      ap₂ (λ (xs ys : List ClientMessage). xs ++ ys) out empty
          ∙ append-nil (actions_in l.log ++ message ∷ [])
          ∙ ap (λ (xs : List ClientMessage). xs ++ message ∷ []) before,
      d.1,
    )

greeted :
    (l : Link) (socket : ℕ)
    → actions_in ((l.log ++ status_notice l.status live) ++ sent socket (handshake l) ∷ [])
      ≡ actions_in l.log
unfolding actions_in actions_of
greeted l socket =
    actions_in-append (l.log ++ status_notice l.status live) (sent socket (handshake l) ∷ [])
    ∙ ap
        (λ (xs : List ClientMessage).
          actions_in (l.log ++ status_notice l.status live) ++ (xs ++ []))
        (if_false _ _ _ (handshake-is_action l))
    ∙ append-nil _
    ∙ actions_in-append l.log (status_notice l.status live)
    ∙ ap (λ (xs : List ClientMessage). actions_in l.log ++ xs) (actions_in-status l.status live)
    ∙ append-nil _

pub opened-Delivers :
    (messages : List ClientMessage) (l : Link) (socket : ℕ)
    → Delivers messages l
    → Delivers messages (opened_link l socket)
unfolding opened_link
opened-Delivers messages l socket d = (
  append-nil _
      ∙ actions_in-append _ (map (sent socket) l.pending)
      ∙ ap₂ (λ (xs ys : List ClientMessage). xs ++ ys) (greeted l socket)
          (actions_in-map socket l.pending ∙ d.1)
      ∙ d.0,
  refl,
)

pub dispatch-Delivers :
    (messages : List ClientMessage) (dropped : List ℕ) (l : Link) (message : ClientMessage)
    → Sound dropped l
    → l.stopped ≡ false
    → is_action message ≡ true
    → Delivers messages l
    → Delivers (messages ++ message ∷ []) (dispatch l message)
unfolding dispatch
dispatch-Delivers messages dropped l message v running action d =
    elim (Bool-cases (not l.is_open)) [
      | inl down ↦
          subst (Delivers (messages ++ message ∷ []))
            (sym (if_false _ _ _ running ∙ if_true _ _ _ down))
            (queued-Delivers messages (ensure_started l) message action
              (Idle-Delivers messages l (ensure_started l) (ensure_started-Idle l) d))
      | inr not_down ↦
          let up : l.is_open ≡ true = ground arith in
          let facts = v.serving up in
          subst (Delivers (messages ++ message ∷ []))
            (sym (dispatch-open l message l.generation running up (v.latest facts.5)))
            (sent-Delivers messages l message l.generation action facts.3 d)
    ]

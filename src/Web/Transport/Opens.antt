-- ===== src/Web/Transport/Opens.antt =====
-- The opening of a transport's socket.
use mathlib.Core.List.{append-nil, append_assoc}
use klatchr.Prelude.{
  if_true, if_false, ℕ, ◌≡◌, ◌++◌, Bool, true, false, not, none, some, List, [], ◌∷◌, map, arith,
  refl, sym, ap, Bool-cases, inl, inr, ◌∙◌,
}
use klatchr.Server.Messages.{ClientMessage}
use klatchr.Web.Wire.{live}
use klatchr.Web.Link.{Link, Notice, newest, sent, tell, liveness_ms}
use klatchr.Web.Transport.{
  transmit, dispatch, dispatch_all, flush_pending, start_keepalive, handshake, handle_open,
}
use klatchr.Web.Transport.Life.{elem}
use klatchr.Web.Transport.Status.{status_notice, set_status_lem}
use klatchr.Web.Transport.Sound.{Sound, armed}

pub transmit-newest :
    (l : Link) (message : ClientMessage) (socket : ℕ)
    → newest l.sockets ≡ some socket
    → transmit l message ≡ tell l (sent socket message)
unfolding transmit
transmit-newest l message socket h = rw (h, transmit) refl

pub dispatch-open :
    (l : Link) (message : ClientMessage) (socket : ℕ)
    → l.stopped ≡ false
    → l.is_open ≡ true
    → newest l.sockets ≡ some socket
    → dispatch l message ≡ tell l (sent socket message)
unfolding dispatch
dispatch-open l message socket running up made =
    if_false _ _ _ running
    ∙ if_false (not l.is_open) _ _ (rw up refl)
    ∙ transmit-newest l message socket made

dispatch_all-open :
    (l : Link) (messages : List ClientMessage) (socket : ℕ)
    → l.stopped ≡ false
    → l.is_open ≡ true
    → newest l.sockets ≡ some socket
    → dispatch_all l messages ≡ record l { log = l.log ++ map (sent socket) messages }
unfolding dispatch_all tell
dispatch_all-open l [] socket running up made =
    ap (λ (log : List Notice). record l { log = log }) (sym (append-nil l.log))
dispatch_all-open l (message ∷ messages) socket running up made =
    ap (λ (t : Link). dispatch_all t messages) (dispatch-open l message socket running up made)
    ∙ dispatch_all-open (tell l (sent socket message)) messages socket running up made
    ∙ ap (λ (log : List Notice). record l { log = log })
        (append_assoc l.log (sent socket message ∷ []) (map (sent socket) messages))

-- A transport whose socket has just opened: the handshake has been sent, then what was waiting.
unfoldable pub opened_link : Link → ℕ → Link
opened_link l socket = record l {
  connect_timeout = none;
  watchdog = some liveness_ms;
  is_open = true;
  attempt = 0;
  awaiting_reconnect = false;
  status = live;
  pending = [];
  keepalive = true;
  log =
      ((l.log ++ status_notice l.status live) ++ sent socket (handshake l) ∷ [])
      ++ map (sent socket) l.pending;
}

start_keepalive_lem : (l : Link) → start_keepalive l ≡ record l { keepalive = true }
unfolding start_keepalive
start_keepalive_lem l = elim (Bool-cases l.keepalive) [
  | inl kept ↦ if_true _ _ _ kept ∙ ap (λ (b : Bool). record l { keepalive = b }) kept
  | inr new ↦ if_false _ _ _ new
]

pub handle_open_lem :
    (l : Link) (socket : ℕ)
    → l.stopped ≡ false
    → newest l.sockets ≡ some socket
    → handle_open l ≡ opened_link l socket
unfolding handle_open opened_link flush_pending handshake tell
handle_open_lem l socket running made =
    let up : Link = record l {
      connect_timeout = none;
      watchdog = some liveness_ms;
      is_open = true;
      attempt = 0;
      awaiting_reconnect = false;
    } in
    ap (λ (t : Link). start_keepalive (flush_pending (dispatch t (handshake t))))
      (set_status_lem up live)
    ∙ ap (λ (t : Link). start_keepalive (flush_pending t))
        (dispatch-open _ (handshake l) socket running refl made)
    ∙ ap start_keepalive (dispatch_all-open _ l.pending socket running refl made)
    ∙ start_keepalive_lem _

pub opened_link-Sound :
    (dropped : List ℕ) (l : Link) (socket : ℕ)
    → l.started ≡ true
    → l.stopped ≡ false
    → l.awaiting_reconnect ≡ false
    → elem l.generation l.sockets ≡ true
    → Sound dropped l
    → Sound dropped (opened_link l socket)
unfolding opened_link armed
opened_link-Sound dropped l socket started running free made v = record {
  silent = λ h. absurd (cc);
  serving = λ h. (refl, refl, refl, refl, refl, made);
  waiting = λ h k. absurd (cc);
  bounded = v.bounded;
  steady = λ h. v.steady free;
  opening = λ a b c d. absurd (cc);
  idle = λ h. absurd (cc);
  watched = v.watched;
  latest = v.latest;
  below = v.below;
  ended = λ h k. absurd (ground arith);
}

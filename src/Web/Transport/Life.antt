-- ===== src/Web/Transport/Life.antt =====
-- The life of a transport: the events that its owner, its sockets, its timers and the device make.
use klatchr.Prelude.{
  ℕ, ◌==◌, ◌≡◌, Bool, true, false, not, ◌&&◌, ◌||◌, Option, none, some, List, [], ◌∷◌,
  if◌then◌else◌,
}
use klatchr.Web.Wire.{Action, ServerMessage}
use klatchr.Web.Link.{Link, SocketInit, Notice, closed, new_link}
use klatchr.Web.Transport.{
  handle_open, handle_message, handle_drop, send, subscribe, subscribe_status, subscribe_error,
  dispose, visible, reconnect_now, backoff_due, connect_due, watchdog_due, keepalive_due,
}

pub data Event : Type 0 where
  subscribes subscribes_status subscribes_error disposes : Event
  sends : (action : Action) → Event
  opens : (socket : ℕ) → Event
  receives : (socket : ℕ) (inbound : Option ServerMessage) → Event
  drops : (socket : ℕ) → Event
  backoff_ends connect_ends keepalive_ends : Event
  watchdog_ends : (hidden : Bool) → Event
  shows comes_online : Event

unfoldable pub happen : Link → Event → Link
happen l subscribes = subscribe l
happen l subscribes_status = subscribe_status l
happen l subscribes_error = subscribe_error l
happen l disposes = dispose l
happen l (sends action) = send l action
happen l (opens socket) = if socket == l.generation then handle_open l else l
happen l (receives socket inbound) = if socket == l.generation then handle_message l inbound else l
happen l (drops socket) = if socket == l.generation then handle_drop l else l
happen l backoff_ends = elim l.backoff [ none ↦ l | some ms ↦ backoff_due l ]
happen l connect_ends = elim l.connect_timeout [ none ↦ l | some socket ↦ connect_due l socket ]
happen l keepalive_ends = if l.keepalive then keepalive_due l else l
happen l (watchdog_ends hidden) = elim l.watchdog [ none ↦ l | some ms ↦ watchdog_due l hidden ]
happen l shows = if l.watching then visible l else l
happen l comes_online = if l.watching then reconnect_now l else l

unfoldable pub elem : ℕ → List ℕ → Bool
elem n [] = false
elem n (m ∷ ms) = (n == m) || elem n ms

-- The sockets that the transport has closed.
unfoldable pub closed_in : List Notice → ℕ → Bool
closed_in [] n = false
closed_in (closed m ∷ log) n = (n == m) || closed_in log n
closed_in (notice ∷ log) n = closed_in log n

-- A browser opens a socket that was made, and that has neither been closed nor dropped.
unfoldable pub can_happen : Link → List ℕ → Event → Bool
can_happen l dropped (opens socket) =
    elem socket l.sockets && not (elem socket dropped || closed_in l.log socket)
can_happen l dropped (drops socket) = elem socket l.sockets
can_happen l dropped event = true

unfoldable pub dropped_after : List ℕ → Event → List ℕ
dropped_after dropped (drops socket) = socket ∷ dropped
dropped_after dropped event = dropped

-- A transport with the sockets that have dropped under it.
pub data Life (init : SocketInit) : Link → List ℕ → Type 0 where
  begins : Life init (new_link init) []
  goes :
      {l : Link} {dropped : List ℕ} (event : Event)
      → can_happen l dropped event ≡ true
      → Life init l dropped
      → Life init (happen l event) (dropped_after dropped event)

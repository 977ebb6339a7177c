-- ===== src/Server/Hub.antt =====
-- apps/server/src/roomHub.ts: all live rooms, and the routing of messages to them. A connection is
-- bound to a room by the room's code. A session's effects are settled as they come: the callbacks
-- that the hub gave it run, the rest is the hub's log. The microtask that a session schedules runs
-- before the next message, so that each entry ends with its flush.
pub mod Counts
pub mod Capped
pub mod Entries
pub mod Owners
pub mod Tracked
pub mod Openings
pub mod Always
use klatchr.Prelude.{
  ℕ, suc, ◌+◌, ◌-◌, Bool, true, false, not, ◌&&◌, Option, none, some, List, [], ◌∷◌, ◌++◌, filter,
  Text, codes, Dict, keys, lookup, insert, omit, length, leb, ◌==◌, if◌then◌else◌,
}
use klatchr.Value.{Value}
use klatchr.RoomCode.{generate_room_code}
use klatchr.Room.{create_room}
use klatchr.Games.Catalogue.{nothing}
use klatchr.Server.Events.{HostAction, UsageLine, room_open}
use klatchr.Server.Wire.{Message, failed, pong, Effect, send, close, superseded, closed_out, usage}
use klatchr.Server.Messages.{
  ClientMessage, open_room, resume_room, join_room, host_room, play_room, leave_room, ping, Parsed,
  no_json, no_message, parsed,
}
use klatchr.Server.Session.{
  Session, Context, create_session, add_host, resume_host, join_session, host_action, play,
  leave_session, disconnect,
}
use klatchr.Server.Broadcast.{flush}

pub record Limits : Type 0 where
  pub max_rooms : ℕ
  pub max_rooms_per_address : ℕ

abbrev pub default_limits : Limits
default_limits = record { max_rooms = 1000; max_rooms_per_address = 10 }

pub record Hub : Type 0 where
  pub rooms : Dict Session
  pub session_of : List (ℕ × Text)
  pub opened_by : Dict Text
  pub rooms_per_address : Dict ℕ
  pub log : List Effect

-- What the injected sources return to an entry: the context of a session's call, and for an opening
-- the numbers that the room code is drawn with, on fuel.
pub record Sources : Type 0 where
  pub ctx : Context
  pub draw : ℕ → ℕ
  pub attempts : ℕ

unfoldable pub new_hub : Hub
new_hub = record { rooms = []; session_of = []; opened_by = []; rooms_per_address = []; log = [] }

unfoldable pub bound : ℕ → List (ℕ × Text) → Option Text
bound conn [] = none
bound conn ((c, code) ∷ rest) = if c == conn then some code else bound conn rest

unfoldable pub bind : ℕ → Text → List (ℕ × Text) → List (ℕ × Text)
bind conn code [] = (conn, code) ∷ []
bind conn code ((c, old) ∷ rest) =
    if c == conn then (c, code) ∷ rest else (c, old) ∷ bind conn code rest

unfoldable pub unbind : ℕ → List (ℕ × Text) → List (ℕ × Text)
unbind conn bindings = filter (λ b. not (b.0 == conn)) bindings

unfoldable pub unbind_all : List ℕ → List (ℕ × Text) → List (ℕ × Text)
unbind_all [] bindings = bindings
unbind_all (conn ∷ conns) bindings = unbind_all conns (unbind conn bindings)

unfoldable pub is_bound : Hub → ℕ → Bool
is_bound hub conn = elim (bound conn hub.session_of) [ none ↦ false | some code ↦ true ]

-- `map.get(key) ?? fallback`.
unfoldable pub count_or : ℕ → Option ℕ → ℕ
count_or fallback none = fallback
count_or fallback (some n) = n

unfoldable pub refuse : Hub → ℕ → Text → Text → Hub
refuse hub conn code message = record hub { log = hub.log ++ send conn (failed code message) ∷ [] }

-- One room less for an address.
unfoldable pub release : Text → Dict ℕ → Dict ℕ
release address counts =
    if leb (count_or 1 (lookup address counts)) 1
    then omit address counts
    else insert address (count_or 1 (lookup address counts) - 1) counts

unfoldable pub forget_opener : Hub → Text → Hub
forget_opener hub code = elim (lookup code hub.opened_by) [
  | none ↦ hub
  | some address ↦ record hub {
    opened_by = omit code hub.opened_by;
    rooms_per_address = release address hub.rooms_per_address;
  }
]

-- The callback of a room that has closed.
unfoldable pub drop_room : Hub → Text → List ℕ → Hub
drop_room hub code conns =
    let hub' = forget_opener (record hub { rooms = omit code hub.rooms }) code in
    record hub' { session_of = unbind_all conns hub'.session_of }

unfoldable pub settle : List Effect → Hub → Hub
settle [] hub = hub
settle (superseded conn ∷ effects) hub =
    settle effects (record hub { session_of = unbind conn hub.session_of })
settle (closed_out code conns ∷ effects) hub = settle effects (drop_room hub code conns)
settle (send conn message ∷ effects) hub =
    settle effects (record hub { log = hub.log ++ send conn message ∷ [] })
settle (close conn ∷ effects) hub = settle effects (record hub { log = hub.log ++ close conn ∷ [] })
settle (usage line ∷ effects) hub = settle effects (record hub { log = hub.log ++ usage line ∷ [] })

-- The session is stored as a call left it, and its effects are settled.
unfoldable pub store : Hub → Text → Session → Hub
store hub code s =
    settle s.log (record hub { rooms = insert code (record s { log = [] }) hub.rooms })

-- The microtask of the room, if it is live.
unfoldable pub flush_room : Hub → Text → Context → Hub
flush_room hub code ctx = elim (lookup code hub.rooms) [
  | none ↦ hub
  | some s ↦ store hub code (flush s ctx)
]

-- The room that a connection is bound to, with its code.
unfoldable pub room_of : Hub → ℕ → Option (Text × Session)
room_of hub conn = elim (bound conn hub.session_of) [
  | none ↦ none
  | some code ↦ elim (lookup code hub.rooms) [ none ↦ none | some s ↦ some (code, s) ]
]

unfoldable pub route : Hub → ℕ → Text → (Session → Session) → Context → Hub
route hub conn code action ctx = elim (room_of hub conn) [
  | none ↦ refuse hub conn code (codes "NOT_IN_ROOM")
  | some (own, s) ↦ flush_room (store hub own (action s)) own ctx
]

unfoldable pub attach_to_room : Hub → ℕ → Text → (Session → Session × Bool) → Context → Hub
attach_to_room hub conn code attach ctx =
    if is_bound hub conn
    then refuse hub conn code (codes "ALREADY_IN_ROOM")
    else elim (lookup code hub.rooms) [
      | none ↦ refuse hub conn code (codes "NO_SUCH_ROOM")
      | some s ↦
          let (s', accepted) = attach s in
          let hub' = store hub code s' in
          flush_room
            (if accepted then record hub' { session_of = bind conn code hub'.session_of } else hub')
            code ctx
    ]

-- The counts of a room's opening, for a connection whose address is known.
unfoldable pub note_opener : Hub → Text → Option Text → Hub
note_opener hub code none = hub
note_opener hub code (some address) = record hub {
  opened_by = insert code address hub.opened_by;
  rooms_per_address =
      insert address (count_or 0 (lookup address hub.rooms_per_address) + 1) hub.rooms_per_address;
}

unfoldable pub at_cap : Limits → Hub → Option Text → Bool
at_cap limits hub none = false
at_cap limits hub (some address) =
    leb limits.max_rooms_per_address (count_or 0 (lookup address hub.rooms_per_address))

-- The room under the code that was drawn, with its host.
unfoldable pub admit_room : Hub → ℕ → Option Text → Text → Context → Hub
admit_room hub conn address code ctx =
    let s = create_session (create_room nothing code ctx.id) ctx.secret in
    let hub' = note_opener (record hub { rooms = insert code s hub.rooms }) code address in
    let hub'' =
      store (record hub' { session_of = bind conn code hub'.session_of }) code (add_host s conn) in
    flush_room (record hub'' { log = hub''.log ++ usage room_open ∷ [] }) code ctx

unfoldable pub open_hub : Limits → Hub → ℕ → Option Text → Sources → Hub
open_hub limits hub conn address src =
    if is_bound hub conn
    then refuse hub conn [] (codes "ALREADY_IN_ROOM")
    else if leb limits.max_rooms (length hub.rooms)
    then refuse hub conn [] (codes "SERVER_FULL")
    else if at_cap limits hub address
    then refuse hub conn [] (codes "TOO_MANY_ROOMS")
    else elim (generate_room_code src.attempts src.draw (keys hub.rooms) 0) [
      | none ↦ hub
      | some code ↦ admit_room hub conn address code src.ctx
    ]

unfoldable pub leave : Hub → ℕ → Text → Context → Hub
leave hub conn code ctx = elim (room_of hub conn) [
  | none ↦
      refuse (record hub { session_of = unbind conn hub.session_of }) conn code
        (codes "NOT_IN_ROOM")
  | some (own, s) ↦
      flush_room
        (store (record hub { session_of = unbind conn hub.session_of }) own
          (leave_session s conn ctx))
        own ctx
]

unfoldable pub handle : Limits → Hub → ℕ → Option Text → ClientMessage → Sources → Hub
handle limits hub conn address (open_room nickname) src = open_hub limits hub conn address src
handle limits hub conn address (join_room code nickname token) src =
    attach_to_room hub conn code (λ s. join_session s conn nickname token src.ctx) src.ctx
handle limits hub conn address (resume_room code token) src =
    attach_to_room hub conn code (λ s. resume_host s conn token) src.ctx
handle limits hub conn address (host_room code action game_id config) src =
    route hub conn code (λ s. host_action s conn action game_id config src.ctx) src.ctx
handle limits hub conn address (play_room code event) src =
    route hub conn code (λ s. play s conn event src.ctx) src.ctx
handle limits hub conn address (leave_room code) src = leave hub conn code src.ctx
handle limits hub conn address ping src = record hub { log = hub.log ++ send conn pong ∷ [] }

unfoldable pub answer : Limits → Hub → ℕ → Option Text → Parsed → Sources → Hub
answer limits hub conn address no_json src = refuse hub conn [] (codes "MALFORMED_JSON")
answer limits hub conn address no_message src = refuse hub conn [] (codes "MALFORMED_MESSAGE")
answer limits hub conn address (parsed message) src = handle limits hub conn address message src

unfoldable pub receive : (Text → Parsed) → Limits → Hub → ℕ → Option Text → Text → Sources → Hub
receive parse limits hub conn address raw src = answer limits hub conn address (parse raw) src

unfoldable pub disconnect_hub : Hub → ℕ → Context → Hub
disconnect_hub hub conn ctx = elim (room_of hub conn) [
  | none ↦ record hub { session_of = unbind conn hub.session_of }
  | some (own, s) ↦
      flush_room
        (store (record hub { session_of = unbind conn hub.session_of }) own (disconnect s conn)) own
        ctx
]

-- A grace timer of a live room runs out.
unfoldable pub timer : Hub → Text → (Session → Session) → Context → Hub
timer hub code due ctx = elim (lookup code hub.rooms) [
  | none ↦ hub
  | some s ↦ flush_room (store hub code (due s)) code ctx
]

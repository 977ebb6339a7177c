-- ===== src/Server/Session.antt =====
-- apps/server/src/roomSession.ts: one live room with the connections attached to it. A connection is
-- a number, what the session does to the outside an Effect in its log. The grace timers and the
-- microtask are steps of their own: `reap`, `reap_host` and `flush`. The contexts carry what the
-- injected sources return.
use klatchr.Prelude.{
  ℕ, Bool, true, false, not, Option, none, some, List, [], ◌∷◌, ◌++◌, filter, find, Text, codes,
  same, includes, lookup, without, ok, err, Next, kept, next_of, ◌==◌, if◌then◌else◌,
}
use klatchr.Value.{Value, is_advance}
use klatchr.Game.{Player, Viewer, player, host}
use klatchr.Room.{
  Room, RoomEvent, RoomError, RoomErrorCode, ReduceContext, Phase, lobby, join, leave, game_event,
  room_reduce, round_scores, player_id_for_token, is_scores, ids,
}
use klatchr.Games.Catalogue.{AnyState, AnyView}
use klatchr.Server.Events.{HostAction, host_event, stamp_player_id, player_join, round_started}
use klatchr.Server.Wire.{opened, joined, failed, Effect, send, close, superseded, usage, error_name}

abbrev pub Context : Type 0
Context = ReduceContext AnyState AnyView

pub record Session : Type 0 where
  pub room : Room AnyState
  pub members : List (ℕ × Viewer)
  -- The players with a pending reap.
  pub reapers : List Text
  pub host_token : Text
  pub host_reaping : Bool
  pub pending_broadcast : Bool
  pub log : List Effect

unfoldable pub create_session : Room AnyState → Text → Session
create_session room secret = record {
  room = room;
  members = [];
  reapers = [];
  host_token = secret;
  host_reaping = false;
  pending_broadcast = false;
  log = [];
}

unfoldable pub member : ℕ → List (ℕ × Viewer) → Option Viewer
member conn [] = none
member conn ((c, viewer) ∷ members) = if c == conn then some viewer else member conn members

unfoldable pub set_member : ℕ → Viewer → List (ℕ × Viewer) → List (ℕ × Viewer)
set_member conn viewer [] = (conn, viewer) ∷ []
set_member conn viewer ((c, v) ∷ members) =
    if c == conn then (c, viewer) ∷ members else (c, v) ∷ set_member conn viewer members

abbrev pub drop_member : ℕ → List (ℕ × Viewer) → List (ℕ × Viewer)
drop_member conn members = filter (λ m. not (m.0 == conn)) members

unfoldable pub emit : Session → List Effect → Session
emit s effects = record s { log = s.log ++ effects }

unfoldable pub send_failure : Session → ℕ → Text → Session
send_failure s conn message = emit s (send conn (failed s.room.code message) ∷ [])

unfoldable pub send_error : Session → ℕ → RoomError → Session
send_error s conn e = send_failure s conn (elim e.message [
  | none ↦ error_name e.code
  | some reason ↦ error_name e.code ++ codes ": " ++ reason
])

unfoldable pub schedule_broadcast : Session → Session
schedule_broadcast s = record s { pending_broadcast = true }

-- A game event whose reduction gave the very room back.
unfoldable pub is_no_op : RoomEvent → Next (Room AnyState) → Bool
is_no_op (game_event event) kept = true
is_no_op event next = false

-- The new room is taken over, with a usage line if a round has begun.
unfoldable pub commit : Session → Room AnyState → Session
commit s room = schedule_broadcast (record s {
  room = room;
  log = s.log ++ elim (round_started s.room room) [ none ↦ [] | some line ↦ usage line ∷ [] ];
})

-- `apply`, with the refusal that its result carries.
unfoldable pub apply : Session → RoomEvent → Viewer → Context → Session × Option RoomError
apply s event actor ctx = elim (room_reduce s.room event actor ctx) [
  | err e ↦ (s, some e)
  | ok next ↦ if is_no_op event next then (s, none) else (commit s (next_of s.room next), none)
]

unfoldable pub cancel_reap : Session → Text → Session
cancel_reap s id = record s { reapers = without id s.reapers }

unfoldable pub schedule_reap : Session → Text → Session
schedule_reap s id = record s { reapers = without id s.reapers ++ id ∷ [] }

unfoldable pub supersede : Session → ℕ → Session
supersede s conn =
    emit (record s { members = drop_member conn s.members })
      (send conn (failed s.room.code (codes "SUPERSEDED")) ∷ close conn ∷ superseded conn ∷ [])

unfoldable pub is_player : Text → Viewer → Bool
is_player id host = false
is_player id (player k) = same k id

-- The loops of `evict` and `evictHost` over the members.
unfoldable pub evict_where : (Viewer → Bool) → List (ℕ × Viewer) → Session → Session
evict_where test [] s = s
evict_where test ((conn, viewer) ∷ members) s =
    evict_where test members (if test viewer then supersede s conn else s)

unfoldable pub evict : Session → Text → Session
evict s id = evict_where (is_player id) s.members s

unfoldable pub evict_host : Session → Session
evict_host s = evict_where klatchr.Room.is_host s.members s

unfoldable pub admit_host : Session → ℕ → Session
admit_host s conn = schedule_broadcast (
    emit (record s { members = set_member conn host s.members })
      (send conn (opened s.room.code s.host_token) ∷ []))

unfoldable pub add_host : Session → ℕ → Session
add_host s conn = admit_host s conn

unfoldable pub resume_host : Session → ℕ → Text → Session × Bool
resume_host s conn token =
    if not (same token s.host_token)
    then (send_failure s conn (codes "BAD_HOST_TOKEN"), false)
    else (admit_host (evict_host (record s { host_reaping = false })) conn, true)

unfoldable pub token_player : Room AnyState → Option Text → Option Text
token_player room none = none
token_player room (some token) = player_id_for_token room token

-- A connection takes the seat of a player whose id and token are given.
unfoldable pub take_seat : Session → ℕ → Text → Text → Session
take_seat s conn id token =
    emit (record s { members = set_member conn (player id) s.members })
      (send conn (joined s.room.code id token) ∷ [])

-- The tail of `join`, after the room's reducer; `added` is the new player, if there is one.
unfoldable pub admit : Session → ℕ → Option Player → Option Text → Session × Bool
admit s conn (some p) token = elim (lookup p.id s.room.tokens) [
  | none ↦ (send_failure s conn (codes "JOIN_FAILED"), false)
  | some secret ↦ (take_seat (emit s (usage player_join ∷ [])) conn p.id secret, true)
]
admit s conn none token = elim (token_player s.room token) [
  | none ↦ (send_failure s conn (codes "JOIN_FAILED"), false)
  | some id ↦ elim (lookup id s.room.tokens) [
    | none ↦ (send_failure s conn (codes "JOIN_FAILED"), false)
    | some secret ↦ (take_seat (evict (cancel_reap s id) id) conn id secret, true)
  ]
]

unfoldable pub join_session : Session → ℕ → Text → Option Text → Context → Session × Bool
join_session s conn nickname token ctx =
    let (s', refusal) = apply s (join nickname token) host ctx in
    elim refusal [
      | some e ↦ (send_error s' conn e, false)
      | none ↦
          admit s' conn (find (λ p. not (includes (ids s.room.players) p.id)) s'.room.players) token
    ]

-- What a refused event makes of the session: its reason is sent back.
unfoldable pub report : ℕ → Session × Option RoomError → Session
report conn (s, none) = s
report conn (s, some e) = send_error s conn e

unfoldable pub host_action : Session → ℕ → HostAction → Option Text → Value → Context → Session
host_action s conn action game_id config ctx = elim (member conn s.members) [
  | none ↦ send_failure s conn (codes "NOT_HOST")
  | some (player id) ↦ send_failure s conn (codes "NOT_HOST")
  | some host ↦ elim (host_event action game_id config) [
    | none ↦ send_failure s conn (codes "NO_GAME_ID")
    | some event ↦ report conn (apply s event host ctx)
  ]
]

unfoldable pub forward_game_event : Session → ℕ → Value → Viewer → Context → Session
forward_game_event s conn event actor ctx = report conn (apply s (game_event event) actor ctx)

unfoldable pub play : Session → ℕ → Value → Context → Session
play s conn event ctx = elim (member conn s.members) [
  | none ↦ send_failure s conn (codes "NOT_IN_ROOM")
  | some host ↦
      if not (is_advance event)
      then send_failure s conn (codes "HOST_CANNOT_PLAY")
      else forward_game_event s conn event host ctx
  | some (player id) ↦
      if is_advance event
      then send_failure s conn (codes "ADVANCE_IS_HOST_ONLY")
      else forward_game_event s conn (stamp_player_id event id) (player id) ctx
]

unfoldable pub leave_session : Session → ℕ → Context → Session
leave_session s conn ctx = elim (member conn s.members) [
  | none ↦ s
  | some host ↦ (apply (record s { members = drop_member conn s.members }) leave host ctx).0
  | some (player id) ↦
      (apply (cancel_reap (record s { members = drop_member conn s.members }) id) leave (player id)
        ctx).0
]

unfoldable pub disconnect : Session → ℕ → Session
disconnect s conn = elim (member conn s.members) [
  | none ↦ s
  | some host ↦ record s { members = drop_member conn s.members; host_reaping = true }
  | some (player id) ↦ schedule_reap (record s { members = drop_member conn s.members }) id
]

-- A player's grace window runs out; without a pending reap there is no such timer.
unfoldable pub reap : Session → Text → Context → Session
reap s id ctx =
    if includes s.reapers id then (apply (cancel_reap s id) leave (player id) ctx).0 else s

unfoldable pub reap_host : Session → Context → Session
reap_host s ctx =
    if s.host_reaping then (apply (record s { host_reaping = false }) leave host ctx).0 else s

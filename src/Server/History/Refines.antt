-- ===== src/Server/History/Refines.antt =====
-- A live room refines the room of the core: its history is a history of the reducer.
use klatchr.Prelude.{
  if_keeps, ℕ, ◌≡◌, refl, sym, subst, ◌∙◌, Bool, true, false, Option, none, some, Text,
  Option-cases, Bool-cases, inl, inr, if◌then◌else◌, includes, find, not, same, ◌⊎◌,
}
use klatchr.Value.{Value, is_advance}
use klatchr.Game.{Viewer, player, host, Player}
use klatchr.Registry.{Registry}
use klatchr.Room.{Room, RoomEvent, join, leave, game_event, is_host}
use klatchr.Room.Step.{step}
use klatchr.Room.Invariant.{IsFresh}
use klatchr.Room.Reach.{Reach, created, stepped}
use klatchr.Games.Catalogue.{AnyState, AnyView, nothing}
use klatchr.Server.Events.{host_event, stamp_player_id}
use klatchr.Server.Session.{
  Session, Context, member, create_session, add_host, admit_host, resume_host, evict_host,
  join_session, host_action, play, leave_session, disconnect, reap, reap_host, apply, cancel_reap,
  schedule_reap, send_failure, send_error, emit, take_seat, schedule_broadcast, evict, is_player,
  admit, token_player, forward_game_event,
}
use klatchr.Server.Broadcast.{flush, broadcast, close_out}
use klatchr.Server.Authority.{apply-room, report-room}
use klatchr.Server.Attached.Kept.{evict_where-rest}
use klatchr.Server.History.{
  Call, run, Live, opens, called, resumes, joins, acts, plays, leaves, drops, player_due, host_due,
  flushes,
}

-- What a call makes of the room: nothing, or one event of the reducer.
pub data Moves (room : Room AnyState) (ctx : Context) : Room AnyState → Type 0 where
  stays : Moves room ctx room
  steps : (event : RoomEvent) (actor : Viewer) → Moves room ctx (step room event actor ctx)

moved :
    {room room' : Room AnyState} {ctx : Context} (event : RoomEvent) (actor : Viewer)
    → room' ≡ step room event actor ctx
    → Moves room ctx room'
moved {room = room} {ctx = ctx} event actor e = subst (Moves room ctx) (sym e) (steps event actor)

stayed : {room room' : Room AnyState} {ctx : Context} → room' ≡ room → Moves room ctx room'
stayed {room = room} {ctx = ctx} e = subst (Moves room ctx) (sym e) stays

resume_host-room :
    (s : Session) (conn : ℕ) (token : Text) → (resume_host s conn token).0.room ≡ s.room
unfolding resume_host send_failure emit admit_host schedule_broadcast evict_host
resume_host-room s conn token = elim (Bool-cases (same token s.host_token)) [
  | inr other ↦ rw (other, resume_host) refl
  | inl right ↦ rw (right, resume_host) ((evict_where-rest is_host s.members _).0)
]

admit-room :
    (s : Session) (conn : ℕ) (added : Option Player) (token : Option Text)
    → (admit s conn added token).0.room ≡ s.room
unfolding admit send_failure emit take_seat evict cancel_reap
admit-room s conn (some p) token = elim (Option-cases (klatchr.Prelude.lookup p.id s.room.tokens)) [
  | inl lost ↦ rw (lost, admit) refl
  | inr (secret, found) ↦ rw (found, admit) refl
]
admit-room s conn none token = elim (Option-cases (token_player s.room token)) [
  | inl lost ↦ rw (lost, admit) refl
  | inr (id, owned) ↦ elim (Option-cases (klatchr.Prelude.lookup id s.room.tokens)) [
    | inl lost ↦ rw (owned, lost, admit) refl
    | inr (secret, found) ↦
        rw (owned, found, admit) ((evict_where-rest (is_player id) s.members _).0)
  ]
]

join_session-room :
    (s : Session) (conn : ℕ) (nickname : Text) (token : Option Text) (ctx : Context)
    → (join_session s conn nickname token ctx).0.room ≡ step s.room (join nickname token) host ctx
unfolding join_session send_error send_failure emit
join_session-room s conn nickname token ctx =
    let event = join nickname token in
    elim (Option-cases (apply s event host ctx).1) [
      | inr (e, refused) ↦ rw (refused, join_session) (apply-room s event host ctx)
      | inl let_in ↦
          rw (let_in, join_session)
            (admit-room (apply s event host ctx).0 conn _ token ∙ apply-room s event host ctx)
    ]

play-Moves :
    (s : Session) (conn : ℕ) (event : Value) (ctx : Context)
    → Moves s.room ctx (play s conn event ctx).room
unfolding play forward_game_event send_failure emit
play-Moves s conn event ctx = elim (Option-cases (member conn s.members)) [
  | inl away ↦ rw (away, play) stays
  | inr (host, here) ↦ elim (Bool-cases (is_advance event)) [
    | inl h ↦
        rw (here, h, play)
          (moved (game_event event) host
            (report-room conn _ _ ∙ apply-room s (game_event event) host ctx))
    | inr h ↦ rw (here, h, play) stays
  ]
  | inr (player id, here) ↦ elim (Bool-cases (is_advance event)) [
    | inl h ↦ rw (here, h, play) stays
    | inr h ↦
        let stamped = game_event (stamp_player_id event id) in
        rw (here, h, play)
          (moved stamped (player id) (report-room conn _ _ ∙ apply-room s stamped (player id) ctx))
  ]
]

leave_session-Moves :
    (s : Session) (conn : ℕ) (ctx : Context) → Moves s.room ctx (leave_session s conn ctx).room
unfolding leave_session cancel_reap
leave_session-Moves s conn ctx = elim (Option-cases (member conn s.members)) [
  | inl away ↦ rw (away, leave_session) stays
  | inr (host, here) ↦ rw (here, leave_session) (moved leave host (apply-room _ leave host ctx))
  | inr (player id, here) ↦
      rw (here, leave_session) (moved leave (player id) (apply-room _ leave (player id) ctx))
]

host_action-Moves :
    (s : Session) (conn : ℕ) (action : klatchr.Server.Events.HostAction) (game_id : Option Text)
    (config : Value) (ctx : Context)
    → Moves s.room ctx (host_action s conn action game_id config ctx).room
unfolding host_action send_failure emit
host_action-Moves s conn action game_id config ctx = elim (Option-cases (member conn s.members)) [
  | inl away ↦ rw (away, host_action) stays
  | inr (player id, here) ↦ rw (here, host_action) stays
  | inr (host, here) ↦ elim (Option-cases (host_event action game_id config)) [
    | inl unnamed ↦ rw (here, unnamed, host_action) stays
    | inr (event, named) ↦
        rw (here, named, host_action)
          (moved event host (report-room conn _ _ ∙ apply-room s event host ctx))
  ]
]

disconnect-room : (s : Session) (conn : ℕ) → (disconnect s conn).room ≡ s.room
unfolding disconnect schedule_reap
disconnect-room s conn = elim (Option-cases (member conn s.members)) [
  | inl away ↦ rw (away, disconnect) refl
  | inr (host, here) ↦ rw (here, disconnect) refl
  | inr (player id, here) ↦ rw (here, disconnect) refl
]

reap-Moves : (s : Session) (id : Text) (ctx : Context) → Moves s.room ctx (reap s id ctx).room
unfolding reap cancel_reap
reap-Moves s id ctx = elim (Bool-cases (includes s.reapers id)) [
  | inr idle ↦ rw (idle, reap) stays
  | inl due ↦ rw (due, reap) (moved leave (player id) (apply-room _ leave (player id) ctx))
]

reap_host-Moves : (s : Session) (ctx : Context) → Moves s.room ctx (reap_host s ctx).room
unfolding reap_host
reap_host-Moves s ctx =
    if_keeps (λ (o : Session). Moves s.room ctx o.room) s.host_reaping _ s
      (moved leave host (apply-room _ leave host ctx)) stays

flush-room : (s : Session) (ctx : Context) → (flush s ctx).room ≡ s.room
unfolding flush broadcast close_out emit
flush-room s ctx =
    if_keeps (λ (o : Session). o.room ≡ s.room) s.pending_broadcast _ s
      (if_keeps (λ (o : Session). o.room ≡ s.room) s.room.closed _ _ refl refl) refl

-- Every call makes at most one event of the room's reducer.
pub run-Moves : (s : Session) (call : Call) (ctx : Context) → Moves s.room ctx (run s call ctx).room
unfolding run
run-Moves s (resumes conn token) ctx = stayed (resume_host-room s conn token)
run-Moves s (joins conn nickname token) ctx =
    moved (join nickname token) host (join_session-room s conn nickname token ctx)
run-Moves s (acts conn action game_id config) ctx =
    host_action-Moves s conn action game_id config ctx
run-Moves s (plays conn event) ctx = play-Moves s conn event ctx
run-Moves s (leaves conn) ctx = leave_session-Moves s conn ctx
run-Moves s (drops conn) ctx = stayed (disconnect-room s conn)
run-Moves s (player_due id) ctx = reap-Moves s id ctx
run-Moves s host_due ctx = reap_host-Moves s ctx
run-Moves s flushes ctx = stayed (flush-room s ctx)

Moves-Reach :
    {r : Registry AnyState AnyView} {code host_id : Text} (ctx : Context)
    {room room' : Room AnyState}
    → ctx.registry ≡ r
    → IsFresh room ctx
    → Reach r nothing code host_id room
    → Moves room ctx room'
    → Reach r nothing code host_id room'
Moves-Reach ctx same_registry free past stays = past
Moves-Reach ctx same_registry free past (steps event actor) =
    stepped event actor ctx same_registry free past

-- Whatever the connections of a live room send and whenever its timers run out, the room is one
-- that a history of events of the core's reducer makes.
pub Live-Reach :
    (r : Registry AnyState AnyView) (code host_id : Text) {s : Session}
    → Live r code host_id s
    → Reach r nothing code host_id s.room
unfolding add_host admit_host create_session schedule_broadcast emit
Live-Reach r code host_id (opens secret conn) = created
Live-Reach r code host_id (called {s = before} call ctx same_registry free past) =
    Moves-Reach ctx same_registry free (Live-Reach r code host_id past) (run-Moves before call ctx)

-- ===== src/Server/Attached/Kept.antt =====
-- Every operation of a session keeps connections, seats and timers together.
use klatchr.Prelude.{
  if_keeps, ℕ, ◌≡◌, ◌≢◌, refl, Bool, true, false, Option, some, none, List, [], ◌∷◌, Text, includes,
  same_refl, without, includes-without, arith, Bool-cases, inl, inr, Option-cases, Result-cases,
}
use klatchr.Value.{Value, is_advance}
use klatchr.Game.{Viewer, player, host}
use klatchr.Room.{RoomEvent, RoomError, leave, game_event, room_reduce, ids}
use klatchr.Room.Step.{step}
use klatchr.Room.Seated.{is_leave, step-HasSeat, leave-HasSeat, host_leave-HasSeat}
use klatchr.Server.Events.{HostAction, host_event, stamp_player_id}
use klatchr.Server.Session.{
  Session, Context, member, emit, send_failure, send_error, schedule_broadcast, commit, is_no_op,
  apply, cancel_reap, schedule_reap, supersede, evict_where, report, host_action,
  forward_game_event, play, leave_session, disconnect, reap, reap_host,
}
use klatchr.Server.Members.{member-evict_where, evicted}
use klatchr.Server.Authority.{apply-room}
use klatchr.Server.Attached.{Fits, IsAttached}
use klatchr.Server.Attached.Moves.{
  Fits-grow, Fits-fewer, Fits-schedule, Fits-cancel, Fits-vacate, Fits-host_gone, Fits-host_back,
  Fits-drop, dropped,
}

-- Who is attached, and which timers run, is not for the room's reducer to change.
pub apply-rest :
    (s : Session) (event : RoomEvent) (actor : Viewer) (ctx : Context)
    → let s' = (apply s event actor ctx).0 in
      (s'.members ≡ s.members) × (s'.reapers ≡ s.reapers) × (s'.host_reaping ≡ s.host_reaping)
unfolding apply commit schedule_broadcast
apply-rest s event actor ctx = elim (Result-cases (room_reduce s.room event actor ctx)) [
  | inr (e, h) ↦ rw (h, apply) (refl, refl, refl)
  | inl (next, h) ↦ elim (Bool-cases (is_no_op event next)) [
    | inl still ↦ rw (h, still, apply) (refl, refl, refl)
    | inr moved ↦ rw (h, moved, apply) (refl, refl, refl)
  ]
]

apply-IsAttached :
    (s : Session) (event : RoomEvent) (actor : Viewer) (ctx : Context)
    → Fits (ids (step s.room event actor ctx).players) s.members s.reapers s.host_reaping
    → IsAttached (apply s event actor ctx).0
apply-IsAttached s event actor ctx f =
    let (m, r, h) = apply-rest s event actor ctx in rw (apply-room s event actor ctx, m, r, h) f

pub kept_seats :
    (s : Session) (event : RoomEvent) (actor : Viewer) (ctx : Context)
    → is_leave event ≡ false
    → IsAttached s
    → IsAttached (apply s event actor ctx).0
kept_seats s event actor ctx stays f =
    apply-IsAttached s event actor ctx
      (Fits-grow f _ λ k. step-HasSeat s.room event actor ctx k stays)

player_left_seat :
    (s : Session) (id : Text) (ctx : Context)
    → includes s.reapers id ≡ false
    → ((c : ℕ) → member c s.members ≢ some (player id))
    → IsAttached s
    → IsAttached (apply s leave (player id) ctx).0
player_left_seat s id ctx untimed free f =
    apply-IsAttached s leave (player id) ctx
      (Fits-vacate f _ id (leave-HasSeat s.room id ctx) untimed free)

host_left_seats :
    (s : Session) (ctx : Context) → IsAttached s → IsAttached (apply s leave host ctx).0
host_left_seats s ctx f =
    apply-IsAttached s leave host ctx (Fits-grow f _ (host_leave-HasSeat s.room ctx))

report-IsAttached :
    (conn : ℕ) (s : Session) (refusal : Option RoomError)
    → IsAttached s
    → IsAttached (report conn (s, refusal))
unfolding report send_error send_failure emit
report-IsAttached conn s none f = f
report-IsAttached conn s (some e) f = f

pub untimed_after : (id : Text) (reapers : List Text) → includes (without id reapers) id ≡ false
untimed_after id reapers = ground (arith, includes-without id id reapers, same_refl id)

pub leave_session-IsAttached :
    (s : Session) (conn : ℕ) (ctx : Context) → IsAttached s → IsAttached (leave_session s conn ctx)
unfolding leave_session cancel_reap
leave_session-IsAttached s conn ctx f = elim (Option-cases (member conn s.members)) [
  | inl away ↦ rw (away, leave_session) f
  | inr (host, here) ↦ rw (here, leave_session) (host_left_seats _ ctx (Fits-drop f conn))
  | inr (player id, here) ↦
      rw (here, leave_session)
        (player_left_seat _ id ctx (untimed_after id s.reapers) (dropped f conn (player id) here)
          (Fits-cancel (Fits-drop f conn) id))
]

pub disconnect-IsAttached : (s : Session) (conn : ℕ) → IsAttached s → IsAttached (disconnect s conn)
unfolding disconnect schedule_reap
disconnect-IsAttached s conn f = elim (Option-cases (member conn s.members)) [
  | inl away ↦ rw (away, disconnect) f
  | inr (host, here) ↦
      rw (here, disconnect) (Fits-host_gone (Fits-drop f conn) (dropped f conn host here))
  | inr (player id, here) ↦
      rw (here, disconnect)
        (Fits-schedule (Fits-drop f conn) id (f.seated conn id here)
          (dropped f conn (player id) here))
]

pub reap-IsAttached :
    (s : Session) (id : Text) (ctx : Context) → IsAttached s → IsAttached (reap s id ctx)
unfolding reap cancel_reap
reap-IsAttached s id ctx f = elim (Bool-cases (includes s.reapers id)) [
  | inr idle ↦ rw (idle, reap) f
  | inl due ↦
      rw (due, reap)
        (player_left_seat _ id ctx (untimed_after id s.reapers) (λ c. f.away id c due)
          (Fits-cancel f id))
]

pub reap_host-IsAttached :
    (s : Session) (ctx : Context) → IsAttached s → IsAttached (reap_host s ctx)
unfolding reap_host
reap_host-IsAttached s ctx f =
    if_keeps IsAttached s.host_reaping _ s (host_left_seats _ ctx (Fits-host_back f)) f

forward-IsAttached :
    (s : Session) (conn : ℕ) (event : Value) (actor : Viewer) (ctx : Context)
    → IsAttached s
    → IsAttached (forward_game_event s conn event actor ctx)
unfolding forward_game_event is_leave
forward-IsAttached s conn event actor ctx f =
    report-IsAttached conn _ _ (kept_seats s (game_event event) actor ctx refl f)

pub play-IsAttached :
    (s : Session) (conn : ℕ) (event : Value) (ctx : Context)
    → IsAttached s
    → IsAttached (play s conn event ctx)
unfolding play send_failure emit
play-IsAttached s conn event ctx f = elim (Option-cases (member conn s.members)) [
  | inl away ↦ rw (away, play) f
  | inr (host, here) ↦ elim (Bool-cases (is_advance event)) [
    | inl h ↦ rw (here, h, play) (forward-IsAttached s conn event host ctx f)
    | inr h ↦ rw (here, h, play) f
  ]
  | inr (player id, here) ↦ elim (Bool-cases (is_advance event)) [
    | inl h ↦ rw (here, h, play) f
    | inr h ↦
        rw (here, h, play) (forward-IsAttached s conn (stamp_player_id event id) (player id) ctx f)
  ]
]

host_event-no_leave :
    (action : HostAction) (game_id : Option Text) (config : Value) (event : RoomEvent)
    → host_event action game_id config ≡ some event
    → is_leave event ≡ false
unfolding host_event is_leave
host_event-no_leave HostAction.selects none config event h = absurd (cc)
host_event-no_leave HostAction.selects (some id) config event h = ground arith
host_event-no_leave HostAction.configures game_id config event h = ground arith
host_event-no_leave HostAction.starts game_id config event h = ground arith
host_event-no_leave HostAction.ends game_id config event h = ground arith

pub host_action-IsAttached :
    (s : Session) (conn : ℕ) (action : HostAction) (game_id : Option Text) (config : Value)
    (ctx : Context)
    → IsAttached s
    → IsAttached (host_action s conn action game_id config ctx)
unfolding host_action send_failure emit
host_action-IsAttached s conn action game_id config ctx f =
    elim (Option-cases (member conn s.members)) [
      | inl away ↦ rw (away, host_action) f
      | inr (player id, here) ↦ rw (here, host_action) f
      | inr (host, here) ↦ elim (Option-cases (host_event action game_id config)) [
        | inl unnamed ↦ rw (here, unnamed, host_action) f
        | inr (event, named) ↦
            rw (here, named, host_action)
              (report-IsAttached conn _ _ (
                kept_seats s event host ctx (host_event-no_leave action game_id config event named)
                  f))
      ]
    ]

-- An eviction changes the members only.
pub evict_where-rest :
    (test : Viewer → Bool) (ms : List (ℕ × Viewer)) (s : Session)
    → let s' = evict_where test ms s in
      (s'.room ≡ s.room) × (s'.reapers ≡ s.reapers) × (s'.host_reaping ≡ s.host_reaping)
unfolding evict_where supersede emit
evict_where-rest test [] s = (refl, refl, refl)
evict_where-rest test ((d, v) ∷ ms) s = elim (Bool-cases (test v)) [
  | inl goes ↦ rw (goes, evict_where) (evict_where-rest test ms (supersede s d))
  | inr stays ↦ rw (stays, evict_where) (evict_where-rest test ms s)
]

pub evict_where-IsAttached :
    (test : Viewer → Bool) (s : Session) → IsAttached s → IsAttached (evict_where test s.members s)
evict_where-IsAttached test s f =
    let (q, r, h) = evict_where-rest test s.members s in
    rw (q, r, h) (Fits-fewer f _ (member-evict_where test s.members s))

pub nobody_left :
    (test : Viewer → Bool) (s : Session) (v : Viewer)
    → test v ≡ true
    → (c : ℕ) → member c (evict_where test s.members s).members ≢ some v
nobody_left test s v t c h =
    let before = member-evict_where test s.members s c v h in
    let gone = evicted test s.members s c v before t in cc

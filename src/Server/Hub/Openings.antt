-- ===== src/Server/Hub/Openings.antt =====
-- Every entry of the hub keeps the address that a live room was opened from.
use klatchr.Prelude.{
  ℕ, ◌≡◌, refl, Bool, true, false, Option, none, some, [], ◌∷◌, ◌++◌, Text, codes, keys, lookup,
  insert, length, has, same_iff, has-insert, has-lookup, lookup-insert, leb, arith, Option-cases,
  Bool-cases, inl, inr,
}
use klatchr.RoomCode.{generate_room_code}
use klatchr.Room.{create_room}
use klatchr.Games.Catalogue.{nothing}
use klatchr.Server.Events.{room_open}
use klatchr.Server.Wire.{usage}
use klatchr.Server.Messages.{
  ClientMessage, open_room, resume_room, join_room, host_room, play_room, leave_room, ping, Parsed,
  no_json, no_message, parsed,
}
use klatchr.Server.Session.{Session, Context, create_session, add_host, leave_session, disconnect}
use klatchr.Server.Hub.{
  Limits, Hub, Sources, refuse, store, flush_room, room_of, route, attach_to_room, note_opener,
  at_cap, admit_room, open_hub, leave, handle, answer, disconnect_hub, timer, is_bound, unbind,
  bind,
}
use klatchr.Server.Hub.Capped.{IsCapped, there, room_of-live}
use klatchr.Server.Hub.Entries.{unused, opened}
use klatchr.Server.Hub.Tracked.{Tracks, Keeps, Keeps-Tracks, then-Keeps, then-Tracks, store-Keeps}

still : (hub : Hub) → Keeps hub hub
still hub code live = (live, refl)

flush_room-Keeps : (hub : Hub) (own : Text) (ctx : Context) → Keeps hub (flush_room hub own ctx)
unfolding flush_room
flush_room-Keeps hub own ctx = elim (Option-cases (lookup own hub.rooms)) [
  | inl gone ↦ rw (gone, flush_room) (still hub)
  | inr (s, found) ↦ rw (found, flush_room) (store-Keeps hub own _ (there hub own s found))
]

stored_flushed :
    (hub : Hub) (own : Text) (s : Session) (ctx : Context)
    → has own hub.rooms ≡ true
    → Keeps hub (flush_room (store hub own s) own ctx)
stored_flushed hub own s ctx known =
    then-Keeps hub (store hub own s) (flush_room (store hub own s) own ctx)
      (store-Keeps hub own s known) (flush_room-Keeps (store hub own s) own ctx)

refuse-Keeps :
    (hub : Hub) (conn : ℕ) (code message : Text) → Keeps hub (refuse hub conn code message)
unfolding refuse
refuse-Keeps hub conn code message k live = (live, refl)

route-Keeps :
    (hub : Hub) (conn : ℕ) (code : Text) (action : Session → Session) (ctx : Context)
    → Keeps hub (route hub conn code action ctx)
unfolding route
route-Keeps hub conn code action ctx = elim (Option-cases (room_of hub conn)) [
  | inl free ↦ rw (free, route) (refuse-Keeps hub conn code _)
  | inr ((own, s), found) ↦
      rw (found, route) (stored_flushed hub own (action s) ctx (room_of-live hub conn own s found))
]

attach_to_room-Keeps :
    (hub : Hub) (conn : ℕ) (code : Text) (attach : Session → Session × Bool) (ctx : Context)
    → Keeps hub (attach_to_room hub conn code attach ctx)
unfolding attach_to_room
attach_to_room-Keeps hub conn code attach ctx = elim (Bool-cases (is_bound hub conn)) [
  | inl bound ↦ rw (bound, attach_to_room) (refuse-Keeps hub conn code _)
  | inr free ↦ elim (Option-cases (lookup code hub.rooms)) [
    | inl gone ↦ rw (free, gone, attach_to_room) (refuse-Keeps hub conn code _)
    | inr (s, found) ↦
        let hub' : Hub = store hub code (attach s).0 in
        let bound : Hub = record hub' { session_of = bind conn code hub'.session_of } in
        let kept : Keeps hub hub' = store-Keeps hub code (attach s).0 (there hub code s found) in
        elim (Bool-cases (attach s).1) [
          | inl accepted ↦
              rw (free, found, accepted, attach_to_room)
                (then-Keeps hub bound (flush_room bound code ctx) kept
                  (flush_room-Keeps bound code ctx))
          | inr declined ↦
              rw (free, found, declined, attach_to_room)
                (then-Keeps hub hub' (flush_room hub' code ctx) kept
                  (flush_room-Keeps hub' code ctx))
        ]
  ]
]

leave-Keeps :
    (hub : Hub) (conn : ℕ) (code : Text) (ctx : Context) → Keeps hub (leave hub conn code ctx)
unfolding leave
leave-Keeps hub conn code ctx =
    let free : Hub = record hub { session_of = unbind conn hub.session_of } in
    elim (Option-cases (room_of hub conn)) [
      | inl none_bound ↦ rw (none_bound, leave) (refuse-Keeps free conn code _)
      | inr ((own, s), found) ↦
          rw (found, leave)
            (stored_flushed free own (leave_session s conn ctx) ctx
              (room_of-live hub conn own s found))
    ]

pub disconnect_hub-Keeps :
    (hub : Hub) (conn : ℕ) (ctx : Context) → Keeps hub (disconnect_hub hub conn ctx)
unfolding disconnect_hub
disconnect_hub-Keeps hub conn ctx =
    let free : Hub = record hub { session_of = unbind conn hub.session_of } in
    elim (Option-cases (room_of hub conn)) [
      | inl none_bound ↦ rw (none_bound, disconnect_hub) (still hub)
      | inr ((own, s), found) ↦
          rw (found, disconnect_hub)
            (stored_flushed free own (disconnect s conn) ctx (room_of-live hub conn own s found))
    ]

pub timer-Keeps :
    (hub : Hub) (code : Text) (due : Session → Session) (ctx : Context)
    → Keeps hub (timer hub code due ctx)
unfolding timer
timer-Keeps hub code due ctx = elim (Option-cases (lookup code hub.rooms)) [
  | inl gone ↦ rw (gone, timer) (still hub)
  | inr (s, found) ↦
      rw (found, timer) (stored_flushed hub code (due s) ctx (there hub code s found))
]

-- The room that is opened has the address that it is opened from.
note_opener-Tracks :
    (limits : Limits) (hub : Hub) (address : Option Text) (code : Text) (s : Session)
    → has code hub.rooms ≡ false
    → IsCapped limits hub
    → Tracks address hub (note_opener (record hub { rooms = insert code s hub.rooms }) code address)
unfolding note_opener
note_opener-Tracks limits hub none code s new v k live = elim (Bool-cases (has k hub.rooms)) [
  | inl old ↦ ground arith
  | inr fresh ↦ ground (arith, has-lookup k hub.opened_by, v.live k)
]
note_opener-Tracks limits hub (some address) code s new v k live = ground (
  arith,
  has-insert code k s hub.rooms,
  lookup-insert code k address hub.opened_by,
  same_iff code k,
  live,
)

admit_room-Tracks :
    (limits : Limits) (hub : Hub) (conn : ℕ) (address : Option Text) (code : Text) (ctx : Context)
    → has code hub.rooms ≡ false
    → IsCapped limits hub
    → Tracks address hub (admit_room hub conn address code ctx)
unfolding admit_room
admit_room-Tracks limits hub conn address code ctx new v =
    let s = create_session (create_room nothing code ctx.id) ctx.secret in
    let noted : Hub = note_opener (record hub { rooms = insert code s hub.rooms }) code address in
    let bound : Hub = record noted { session_of = bind conn code noted.session_of } in
    let hosted : Hub = store bound code (add_host s conn) in
    let logged : Hub = record hosted { log = hosted.log ++ usage room_open ∷ [] } in
    then-Tracks address hub noted (flush_room logged code ctx)
      (note_opener-Tracks limits hub address code s new v)
      (then-Keeps noted logged (flush_room logged code ctx)
        (store-Keeps bound code (add_host s conn) (opened hub address code s))
        (flush_room-Keeps logged code ctx))

open_hub-Tracks :
    (limits : Limits) (hub : Hub) (conn : ℕ) (address : Option Text) (src : Sources)
    → IsCapped limits hub
    → Tracks address hub (open_hub limits hub conn address src)
unfolding open_hub
open_hub-Tracks limits hub conn address src v =
    let refused : (message : Text) → Tracks address hub (refuse hub conn [] message) = λ message.
      Keeps-Tracks address hub (refuse hub conn [] message) (refuse-Keeps hub conn [] message) in
    elim (Bool-cases (is_bound hub conn)) [
      | inl bound ↦ rw (bound, open_hub) (refused _)
      | inr free ↦ elim (Bool-cases (leb limits.max_rooms (length hub.rooms))) [
        | inl full ↦ rw (free, full, open_hub) (refused _)
        | inr room ↦ elim (Bool-cases (at_cap limits hub address)) [
          | inl many ↦ rw (free, room, many, open_hub) (refused _)
          | inr below ↦
              elim (Option-cases (generate_room_code src.attempts src.draw (keys hub.rooms) 0)) [
                | inl undrawn ↦
                    rw (free, room, below, undrawn, open_hub)
                      (Keeps-Tracks address hub hub (still hub))
                | inr (code, drawn) ↦
                    rw (free, room, below, drawn, open_hub)
                      (admit_room-Tracks limits hub conn address code src.ctx
                        (unused hub src code drawn) v)
              ]
        ]
      ]
    ]

attach_to_room-Tracks :
    (address : Option Text) (hub : Hub) (conn : ℕ) (code : Text) (attach : Session → Session × Bool)
    (ctx : Context)
    → Tracks address hub (attach_to_room hub conn code attach ctx)
attach_to_room-Tracks address hub conn code attach ctx =
    Keeps-Tracks address hub (attach_to_room hub conn code attach ctx)
      (attach_to_room-Keeps hub conn code attach ctx)

route-Tracks :
    (address : Option Text) (hub : Hub) (conn : ℕ) (code : Text) (act : Session → Session)
    (ctx : Context)
    → Tracks address hub (route hub conn code act ctx)
route-Tracks address hub conn code act ctx =
    Keeps-Tracks address hub (route hub conn code act ctx) (route-Keeps hub conn code act ctx)

handle-Tracks :
    (limits : Limits) (hub : Hub) (conn : ℕ) (address : Option Text) (message : ClientMessage)
    (src : Sources)
    → IsCapped limits hub
    → Tracks address hub (handle limits hub conn address message src)
unfolding handle
handle-Tracks limits hub conn address (open_room nickname) src v =
    open_hub-Tracks limits hub conn address src v
handle-Tracks limits hub conn address (resume_room code token) src v =
    attach_to_room-Tracks address hub conn code _ src.ctx
handle-Tracks limits hub conn address (join_room code nickname token) src v =
    attach_to_room-Tracks address hub conn code _ src.ctx
handle-Tracks limits hub conn address (host_room code action game_id config) src v =
    route-Tracks address hub conn code _ src.ctx
handle-Tracks limits hub conn address (play_room code event) src v =
    route-Tracks address hub conn code _ src.ctx
handle-Tracks limits hub conn address (leave_room code) src v =
    Keeps-Tracks address hub (leave hub conn code src.ctx) (leave-Keeps hub conn code src.ctx)
handle-Tracks limits hub conn address ping src v = Keeps-Tracks address hub hub (still hub)

pub answer-Tracks :
    (limits : Limits) (hub : Hub) (conn : ℕ) (address : Option Text) (message : Parsed)
    (src : Sources)
    → IsCapped limits hub
    → Tracks address hub (answer limits hub conn address message src)
unfolding answer
answer-Tracks limits hub conn address no_json src v =
    Keeps-Tracks address hub (refuse hub conn [] (codes "MALFORMED_JSON"))
      (refuse-Keeps hub conn [] _)
answer-Tracks limits hub conn address no_message src v =
    Keeps-Tracks address hub (refuse hub conn [] (codes "MALFORMED_MESSAGE"))
      (refuse-Keeps hub conn [] _)
answer-Tracks limits hub conn address (parsed message) src v =
    handle-Tracks limits hub conn address message src v

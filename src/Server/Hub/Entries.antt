-- ===== src/Server/Hub/Entries.antt =====
-- The hub's entries, each with the caps that it keeps.
use klatchr.Prelude.{
  ℕ, ◌<◌, ◌≡◌, ap, Bool, true, false, Option, none, some, [], Text, keys, lookup, insert, has, same,
  same_iff, same_refl, Distinct-keys-insert, has-insert, length, leb, arith, Option-cases,
  Bool-cases, inl, inr,
}
use klatchr.RoomCode.{generate_room_code}
use klatchr.RoomCode.Laws.{generate_room_code-free}
use klatchr.Room.{create_room}
use klatchr.Games.Catalogue.{nothing}
use klatchr.Server.Messages.{
  ClientMessage, open_room, resume_room, join_room, host_room, play_room, leave_room, ping, Parsed,
  no_json, no_message, parsed,
}
use klatchr.Server.Session.{Session, Context, create_session, add_host, leave_session, disconnect}
use klatchr.Server.Hub.{
  Limits, Hub, Sources, count_or, room_of, attach_to_room, note_opener, at_cap, admit_room,
  open_hub, leave, handle, answer, disconnect_hub, timer, is_bound,
}
use klatchr.Server.Hub.Counts.{live_of, live_of-insert, count-opened, length-insert}
use klatchr.Server.Hub.Capped.{
  IsCapped, there, store-IsCapped, flush_room-IsCapped, refuse-IsCapped, route-IsCapped,
  room_of-live,
}

at_cap-below :
    (limits : Limits) (hub : Hub) (address : Text)
    → at_cap limits hub (some address) ≡ false
    → count_or 0 (lookup address hub.rooms_per_address) < limits.max_rooms_per_address
unfolding at_cap
at_cap-below limits hub address h = ground arith

pub opened :
    (hub : Hub) (address : Option Text) (code : Text) (s : Session)
    → has code (note_opener (record hub { rooms = insert code s hub.rooms }) code address).rooms
      ≡ true
unfolding note_opener
opened hub none code s = ground (arith, has-insert code code s hub.rooms, same_refl code)
opened hub (some address) code s = ground (arith, has-insert code code s hub.rooms, same_refl code)

pub unused :
    (hub : Hub) (src : Sources) (code : Text)
    → generate_room_code src.attempts src.draw (keys hub.rooms) 0 ≡ some code
    → has code hub.rooms ≡ false
unfolding has
unused hub src code h = generate_room_code-free src.attempts src.draw (keys hub.rooms) 0 code h

module _ {limits : Limits} where
  attach_to_room-IsCapped :
      (hub : Hub) (conn : ℕ) (code : Text) (attach : Session → Session × Bool) (ctx : Context)
      → IsCapped limits hub
      → IsCapped limits (attach_to_room hub conn code attach ctx)
  unfolding attach_to_room
  attach_to_room-IsCapped hub conn code attach ctx v = elim (Bool-cases (is_bound hub conn)) [
    | inl bound ↦ rw (bound, attach_to_room) (refuse-IsCapped hub conn code _ v)
    | inr free ↦ elim (Option-cases (lookup code hub.rooms)) [
      | inl gone ↦ rw (free, gone, attach_to_room) (refuse-IsCapped hub conn code _ v)
      | inr (s, found) ↦
          let kept = store-IsCapped hub code (attach s).0 (there hub code s found) v in
          elim (Bool-cases (attach s).1) [
            | inl accepted ↦
                rw (free, found, accepted, attach_to_room) (flush_room-IsCapped _ code ctx kept)
            | inr declined ↦
                rw (free, found, declined, attach_to_room) (flush_room-IsCapped _ code ctx kept)
          ]
    ]
  ]

  leave-IsCapped :
      (hub : Hub) (conn : ℕ) (code : Text) (ctx : Context)
      → IsCapped limits hub
      → IsCapped limits (leave hub conn code ctx)
  unfolding leave
  leave-IsCapped hub conn code ctx v = elim (Option-cases (room_of hub conn)) [
    | inl free ↦ rw (free, leave) (refuse-IsCapped _ conn code _ v)
    | inr ((own, s), found) ↦
        rw (found, leave)
          (flush_room-IsCapped _ own ctx
            (store-IsCapped _ own (leave_session s conn ctx) (room_of-live hub conn own s found) v))
  ]

  pub disconnect_hub-IsCapped :
      (hub : Hub) (conn : ℕ) (ctx : Context)
      → IsCapped limits hub
      → IsCapped limits (disconnect_hub hub conn ctx)
  unfolding disconnect_hub
  disconnect_hub-IsCapped hub conn ctx v = elim (Option-cases (room_of hub conn)) [
    | inl free ↦ rw (free, disconnect_hub) v
    | inr ((own, s), found) ↦
        rw (found, disconnect_hub)
          (flush_room-IsCapped _ own ctx
            (store-IsCapped _ own (disconnect s conn) (room_of-live hub conn own s found) v))
  ]

  pub timer-IsCapped :
      (hub : Hub) (code : Text) (due : Session → Session) (ctx : Context)
      → IsCapped limits hub
      → IsCapped limits (timer hub code due ctx)
  unfolding timer
  timer-IsCapped hub code due ctx v = elim (Option-cases (lookup code hub.rooms)) [
    | inl gone ↦ rw (gone, timer) v
    | inr (s, found) ↦
        rw (found, timer)
          (flush_room-IsCapped _ code ctx
            (store-IsCapped hub code (due s) (there hub code s found) v))
  ]

  note_opener-IsCapped :
      (hub : Hub) (address : Option Text) (code : Text) (s : Session)
      → has code hub.rooms ≡ false
      → length hub.rooms < limits.max_rooms
      → at_cap limits hub address ≡ false
      → IsCapped limits hub
      → IsCapped limits (note_opener (record hub { rooms = insert code s hub.rooms }) code address)
  unfolding note_opener
  note_opener-IsCapped hub none code s new room below v = record {
    counted = v.counted;
    once = v.once;
    live = λ k h. ground (arith, has-insert code k s hub.rooms, v.live k h);
    different = Distinct-keys-insert code s hub.rooms v.different;
    few = ground (arith, length-insert code s hub.rooms);
    capped = v.capped;
  }
  note_opener-IsCapped hub (some address) code s new room below v =
      let unopened : has code hub.opened_by ≡ false = elim (Bool-cases (has code hub.opened_by)) [
        | inl opened ↦ absurd (ground (arith, v.live code opened))
        | inr h ↦ h
      ] in
      record {
        counted =
            λ a. count-opened code address a hub.rooms_per_address hub.opened_by unopened v.counted;
        once = Distinct-keys-insert code address hub.opened_by v.once;
        live = λ k h. ground (
          arith,
          has-insert code k s hub.rooms,
          has-insert code k address hub.opened_by,
          v.live k,
        );
        different = Distinct-keys-insert code s hub.rooms v.different;
        few = ground (arith, length-insert code s hub.rooms);
        capped = λ a. elim (Bool-cases (same address a)) [
          | inl here ↦
              let this : address ≡ a = (same_iff address a).0 here in
              ground (
                arith,
                live_of-insert code address a hub.opened_by unopened,
                v.counted address,
                ap (λ x. live_of x hub.opened_by) this,
                at_cap-below limits hub address below,
              )
          | inr other ↦
              ground (arith, live_of-insert code address a hub.opened_by unopened, v.capped a)
        ];
      }

  admit_room-IsCapped :
      (hub : Hub) (conn : ℕ) (address : Option Text) (code : Text) (ctx : Context)
      → has code hub.rooms ≡ false
      → length hub.rooms < limits.max_rooms
      → at_cap limits hub address ≡ false
      → IsCapped limits hub
      → IsCapped limits (admit_room hub conn address code ctx)
  unfolding admit_room
  admit_room-IsCapped hub conn address code ctx new room below v =
      let s = create_session (create_room nothing code ctx.id) ctx.secret in
      flush_room-IsCapped _ code ctx (
        store-IsCapped _ code (add_host s conn) (opened hub address code s)
          (note_opener-IsCapped hub address code s new room below v))

  open_hub-IsCapped :
      (hub : Hub) (conn : ℕ) (address : Option Text) (src : Sources)
      → IsCapped limits hub
      → IsCapped limits (open_hub limits hub conn address src)
  unfolding open_hub
  open_hub-IsCapped hub conn address src v = elim (Bool-cases (is_bound hub conn)) [
    | inl bound ↦ rw (bound, open_hub) (refuse-IsCapped hub conn [] _ v)
    | inr free ↦ elim (Bool-cases (leb limits.max_rooms (length hub.rooms))) [
      | inl full ↦ rw (free, full, open_hub) (refuse-IsCapped hub conn [] _ v)
      | inr room ↦ elim (Bool-cases (at_cap limits hub address)) [
        | inl many ↦ rw (free, room, many, open_hub) (refuse-IsCapped hub conn [] _ v)
        | inr below ↦
            elim (Option-cases (generate_room_code src.attempts src.draw (keys hub.rooms) 0)) [
              | inl undrawn ↦ rw (free, room, below, undrawn, open_hub) v
              | inr (code, drawn) ↦
                  rw (free, room, below, drawn, open_hub)
                    (admit_room-IsCapped hub conn address code src.ctx (unused hub src code drawn)
                      (ground arith) below v)
            ]
      ]
    ]
  ]

  handle-IsCapped :
      (hub : Hub) (conn : ℕ) (address : Option Text) (message : ClientMessage) (src : Sources)
      → IsCapped limits hub
      → IsCapped limits (handle limits hub conn address message src)
  unfolding handle
  handle-IsCapped hub conn address (open_room nickname) src v =
      open_hub-IsCapped hub conn address src v
  handle-IsCapped hub conn address (resume_room code token) src v =
      attach_to_room-IsCapped hub conn code _ src.ctx v
  handle-IsCapped hub conn address (join_room code nickname token) src v =
      attach_to_room-IsCapped hub conn code _ src.ctx v
  handle-IsCapped hub conn address (host_room code action game_id config) src v =
      route-IsCapped hub conn code _ src.ctx v
  handle-IsCapped hub conn address (play_room code event) src v =
      route-IsCapped hub conn code _ src.ctx v
  handle-IsCapped hub conn address (leave_room code) src v = leave-IsCapped hub conn code src.ctx v
  handle-IsCapped hub conn address ping src v = v

  pub answer-IsCapped :
      (hub : Hub) (conn : ℕ) (address : Option Text) (message : Parsed) (src : Sources)
      → IsCapped limits hub
      → IsCapped limits (answer limits hub conn address message src)
  unfolding answer
  answer-IsCapped hub conn address no_json src v = refuse-IsCapped hub conn [] _ v
  answer-IsCapped hub conn address no_message src v = refuse-IsCapped hub conn [] _ v
  answer-IsCapped hub conn address (parsed message) src v =
      handle-IsCapped hub conn address message src v

-- ===== src/Server/Closing.antt =====
-- What the end of a room leaves behind.
use klatchr.Prelude.{
  ℕ, ◌≡◌, refl, true, false, some, none, List, [], ◌∷◌, ◌++◌, map, codes, le→leb, arith, Text,
}
use mathlib.Core.List.{append-nil}
use klatchr.Game.{Viewer, host}
use klatchr.Room.{Room, leave, room_reduce, leave_room}
use klatchr.Games.Catalogue.{AnyState}
use klatchr.Server.Events.{round_started}
use klatchr.Server.Wire.{Effect, send, failed, closed_out}
use klatchr.Server.Session.{
  Session, Context, apply, is_no_op, commit, schedule_broadcast, emit, member, drop_member,
  leave_session, reap_host,
}
use klatchr.Server.Broadcast.{flush, broadcast, close_out}

-- What everybody in the list is told when the room is gone, and what the hub is.
abbrev pub farewell : Text → List (ℕ × Viewer) → List Effect
farewell code members =
    map (λ m. send m.0 (failed code (codes "ROOM_CLOSED"))) members
    ++ closed_out code (map (λ m. m.0) members) ∷ []

-- Nobody is attached, and no timer and no broadcast is pending.
abbrev pub IsOver : Session → Type 0
IsOver s =
    (s.members ≡ []) × (s.reapers ≡ []) × (s.host_reaping ≡ false) × (s.pending_broadcast ≡ false)

no_round : (room : Room AnyState) → round_started room (record room { closed = true }) ≡ none
unfolding round_started
no_round room = ground (arith, le→leb room.round room.round (omega arith))

host_left :
    (s : Session) (ctx : Context)
    → (apply s leave host ctx).0 ≡ record s {
      room = record (s.room) { closed = true };
      pending_broadcast = true;
      log = s.log ++ [];
    }
unfolding apply room_reduce leave_room is_no_op commit schedule_broadcast
host_left s ctx = rw (no_round s.room) refl

-- When the host's connection leaves, the next broadcast tells every other member that the room is
-- closed and hands their connections to the hub, and nobody and no timer stays behind.
pub host_leave_closes :
    (s : Session) (conn : ℕ) (ctx : Context)
    → member conn s.members ≡ some host
    → let s' = flush (leave_session s conn ctx) ctx in
      IsOver s'
      × (s'.room.closed ≡ true)
      × (s'.log ≡ s.log ++ farewell s.room.code (drop_member conn s.members))
unfolding leave_session flush broadcast close_out emit
host_leave_closes s conn ctx here =
    rw (here, leave_session, host_left, append-nil) ((refl, refl, refl, refl), refl, refl)

-- When the host's grace window runs out, the next broadcast tells every member that the room is
-- closed and hands their connections to the hub, and nobody and no timer stays behind.
pub host_reap_closes :
    (s : Session) (ctx : Context)
    → s.host_reaping ≡ true
    → let s' = flush (reap_host s ctx) ctx in
      IsOver s' × (s'.room.closed ≡ true) × (s'.log ≡ s.log ++ farewell s.room.code s.members)
unfolding reap_host flush broadcast close_out emit
host_reap_closes s ctx due =
    rw (due, reap_host, host_left, append-nil) ((refl, refl, refl, refl), refl, refl)

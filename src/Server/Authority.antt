-- ===== src/Server/Authority.antt =====
-- Who acts in a room: the identity of the connection, never what a message says.
use klatchr.Prelude.{
  ◌⊎◌, true, if_true, if_false, subst, sym, ℕ, ◌≡◌, ◌≢◌, refl, ◌∙◌, false, Option, none, some, Text,
  codes, kept, fresh, if◌then◌else◌, Result-cases, Bool-cases, Option-cases, inl, inr,
}
use klatchr.Value.{Value, Fields, obj, str, read, field_of, is_record, is_advance}
use klatchr.Game.{Viewer, player, host}
use klatchr.Room.{
  Room, RoomEvent, RoomError, room_reduce, join, leave, select_game, configure_game, start_game,
  game_event, end_game,
}
use klatchr.Room.Step.{step}
use klatchr.Games.Catalogue.{AnyState}
use klatchr.Server.Events.{HostAction, stamp_player_id, read-stamp_player_id, read-stamped}
use klatchr.Server.Session.{
  Session, Context, apply, is_no_op, commit, schedule_broadcast, report, send_error, send_failure,
  emit, member, play, forward_game_event, host_action,
}

is_no_op-fresh : (event : RoomEvent) (r : Room AnyState) → is_no_op event (fresh r) ≡ false
unfolding is_no_op
is_no_op-fresh (join nickname token) r = refl
is_no_op-fresh leave r = refl
is_no_op-fresh (select_game id) r = refl
is_no_op-fresh (configure_game config) r = refl
is_no_op-fresh start_game r = refl
is_no_op-fresh (game_event e) r = refl
is_no_op-fresh end_game r = refl

commit-room : (s : Session) (room : Room AnyState) → (commit s room).room ≡ room
unfolding commit schedule_broadcast
commit-room s room = refl

-- A session's room moves as the room's own reducer says.
pub apply-room :
    (s : Session) (event : RoomEvent) (actor : Viewer) (ctx : Context)
    → (apply s event actor ctx).0.room ≡ step s.room event actor ctx
unfolding apply step
apply-room s event actor ctx = elim (Result-cases (room_reduce s.room event actor ctx)) [
  | inr (e, h) ↦ rw (h, apply, step) refl
  | inl (kept, h) ↦ elim (Bool-cases (is_no_op event kept)) [
    | inl still ↦ rw (h, still, apply, step) refl
    | inr moved ↦ rw (h, moved, apply, step) (commit-room s s.room)
  ]
  | inl (fresh r, h) ↦ rw (h, is_no_op-fresh event r, apply, step) (commit-room s r)
]

send_failure-room :
    (s : Session) (conn : ℕ) (message : Text) → (send_failure s conn message).room ≡ s.room
unfolding send_failure emit
send_failure-room s conn message = refl

pub report-room :
    (conn : ℕ) (s : Session) (refusal : Option RoomError) → (report conn (s, refusal)).room ≡ s.room
unfolding report send_error send_failure emit
report-room conn s none = refl
report-room conn s (some e) = refl

-- What an event is to the room: it names the player, and an object keeps its other properties.
abbrev pub IsOwn : Text → Value → Value → Type 0
IsOwn id event sent =
    (is_record event ≡ true → read sent (codes "playerId") ≡ str id)
    × ((fs : Fields) (k : Text)
        → event ≡ obj fs
        → codes "playerId" ≢ k
        → read sent k ≡ field_of k fs)
    × (is_record event ≡ false → sent ≡ event)

stamp_player_id-other :
    (event : Value) (id : Text) → is_record event ≡ false → stamp_player_id event id ≡ event
unfolding stamp_player_id is_record
stamp_player_id-other Value.undefined id h = refl
stamp_player_id-other Value.null id h = refl
stamp_player_id-other (Value.bool b) id h = refl
stamp_player_id-other (Value.num n) id h = refl
stamp_player_id-other (Value.str t) id h = refl
stamp_player_id-other (Value.arr xs) id h = absurd (cc)
stamp_player_id-other (obj fs) id h = absurd (cc)

stamp_player_id-IsOwn : (event : Value) (id : Text) → IsOwn id event (stamp_player_id event id)
stamp_player_id-IsOwn event id = (
  read-stamp_player_id event id,
  λ fs k made other.
      subst (λ v. read (stamp_player_id v id) k ≡ field_of k fs) (sym made)
        (read-stamped fs id k other),
  stamp_player_id-other event id,
)

play-room :
    (s : Session) (conn : ℕ) (event : Value) (id : Text) (ctx : Context)
    → member conn s.members ≡ some (player id)
    → (play s conn event ctx).room ≡ (
        if is_advance event
        then s.room
        else step s.room (game_event (stamp_player_id event id)) (player id) ctx)
unfolding play forward_game_event
play-room s conn event id ctx here = elim (Bool-cases (is_advance event)) [
  | inl h ↦ rw (here, h, play) (send_failure-room s conn (codes "ADVANCE_IS_HOST_ONLY"))
  | inr h ↦
      rw (here, h, play)
        (report-room conn _ _
          ∙ apply-room s (game_event (stamp_player_id event id)) (player id) ctx)
]

-- What a player's connection sends leaves the room as it was if it is an advance, and otherwise acts
-- on the room as that player. Whatever playerId the client wrote into it, the event that acts has
-- the player's own id there; every other property of an object is the one sent, and what is no
-- record at all is passed on as it is.
pub play_as_self :
    (s : Session) (conn : ℕ) (event : Value) (id : Text) (ctx : Context)
    → member conn s.members ≡ some (player id)
    → ((is_advance event ≡ true) × ((play s conn event ctx).room ≡ s.room))
      ⊎ ((is_advance event ≡ false)
          × ((sent : Value) × ((play s conn event ctx).room
                ≡ step s.room (game_event sent) (player id) ctx)
              × IsOwn id event sent))
play_as_self s conn event id ctx here = elim (Bool-cases (is_advance event)) [
  | inl h ↦ inl (h, play-room s conn event id ctx here ∙ if_true _ _ _ h)
  | inr h ↦ inr (
    h,
    (
      stamp_player_id event id,
      play-room s conn event id ctx here ∙ if_false _ _ _ h,
      stamp_player_id-IsOwn event id,
    ),
  )
]

-- A connection that is not the host's own cannot choose, configure, start or end a game: the room
-- stays as it was.
pub outsider_powerless :
    (s : Session) (conn : ℕ) (action : HostAction) (game_id : Option Text) (config : Value)
    (ctx : Context)
    → member conn s.members ≢ some host
    → (host_action s conn action game_id config ctx).room ≡ s.room
unfolding host_action
outsider_powerless s conn action game_id config ctx other =
    elim (Option-cases (member conn s.members)) [
      | inl away ↦ rw (away, host_action) (send_failure-room s conn (codes "NOT_HOST"))
      | inr (host, here) ↦ absurd (other here)
      | inr (player id, here) ↦ rw (here, host_action) (send_failure-room s conn (codes "NOT_HOST"))
    ]

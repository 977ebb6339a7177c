-- ===== src/Room/Seated.antt =====
-- Who stays seated in a room through its events: a player's own leave aside, everybody.
use mathlib.Core.List.{map-append}
use klatchr.Prelude.{
  ◌≡◌, refl, true, false, Bool, [], ◌∷◌, Text, same, same_iff, includes, includes-append,
  includes-without, Next, kept, fresh, next_of, Bool-cases, Option-cases, inl, inr, arith, lookup,
}
use klatchr.Game.{Game, Viewer, player, host}
use klatchr.Rounds.Seats.{ids-seat_window}
use klatchr.Room.{
  Room, RoomEvent, ReduceContext, join, leave, select_game, configure_game, start_game, game_event,
  end_game, room_reduce, leave_room, reclaim, new_player, seat_joiner, drop_player, begin_round,
  advance_game, ids,
}
use klatchr.Room.Step.{
  step, join_cases, choose_cases, configure_cases, start_cases, play_cases, finish_cases,
}
use klatchr.Room.Invariant.Seats.{ids-without}

unfoldable pub is_leave : RoomEvent → Bool
is_leave leave = true
is_leave e = false

-- A player id has a seat in a room.
abbrev pub HasSeat : {S : Type 0} → Text → Room S → Type 0
HasSeat k room = includes (ids room.players) k ≡ true

reclaim-players :
    {S : Type 0} (key id : Text) (room : Room S) → (reclaim key id room).players ≡ room.players
unfolding reclaim
reclaim-players key id room = elim (Option-cases (lookup key room.score_ledger)) [
  | inl e ↦ rw (e, reclaim) refl
  | inr (parked, e) ↦ rw (e, reclaim) refl
]

module _ {S V : Type 0} where
  seat_joiner-HasSeat :
      (room : Room S) (display k : Text) (ctx : ReduceContext S V)
      → HasSeat k room
      → HasSeat k (seat_joiner room display ctx)
  unfolding seat_joiner
  seat_joiner-HasSeat room display k ctx h = rw (reclaim-players _ _ _) (
      rw (map-append (λ p. p.id) room.players (new_player room display ctx ∷ [])) (
        ground
          (arith, includes-append (ids room.players) (ids (new_player room display ctx ∷ [])) k)))

  advance_game-HasSeat :
      (room : Room S) (game : Game S V) (next : Next S) (k : Text)
      → HasSeat k room
      → HasSeat k (next_of room (advance_game room game next))
  unfolding advance_game
  advance_game-HasSeat room game kept k h = elim (Bool-cases (game.is_complete room.game_state)) [
    | inl done ↦ rw (done, next_of) h
    | inr more ↦ rw (more, next_of) h
  ]
  advance_game-HasSeat room game (fresh s) k h = elim (Bool-cases (game.is_complete s)) [
    | inl done ↦ rw (done, next_of) h
    | inr more ↦ rw (more, next_of) h
  ]

  -- Nobody loses a seat by an event that is no leave.
  pub step-HasSeat :
      (room : Room S) (event : RoomEvent) (actor : Viewer) (ctx : ReduceContext S V) (k : Text)
      → is_leave event ≡ false
      → HasSeat k room
      → HasSeat k (step room event actor ctx)
  unfolding step room_reduce begin_round is_leave
  step-HasSeat room (join nickname token) actor ctx k n h =
      join_cases (HasSeat k) room nickname token ctx h
        λ display small. seat_joiner-HasSeat room display k ctx h
  step-HasSeat room leave actor ctx k n h = absurd (cc)
  step-HasSeat room (select_game id) actor ctx k n h =
      choose_cases (HasSeat k) room id actor ctx h λ config. h
  step-HasSeat room (configure_game config) actor ctx k n h =
      configure_cases (HasSeat k) room config actor h λ off. h
  step-HasSeat room start_game actor ctx k n h =
      start_cases (HasSeat k) room actor ctx h
        λ id game selected registered unspent. rw (ids-seat_window _ _ _) h
  step-HasSeat room (game_event event) actor ctx k n h =
      play_cases (HasSeat k) room event ctx h
        λ game next found on reduced. advance_game-HasSeat room game next k h
  step-HasSeat room end_game actor ctx k n h =
      finish_cases (HasSeat k) room actor ctx h λ game found on. h

  -- When a player leaves, everybody else keeps the seat.
  pub leave-HasSeat :
      (room : Room S) (id : Text) (ctx : ReduceContext S V) (k : Text)
      → same id k ≡ false
      → HasSeat k room
      → HasSeat k (step room leave (player id) ctx)
  unfolding step room_reduce leave_room drop_player
  leave-HasSeat room id ctx k other h =
      rw (ids-without id room.players)
        (ground (arith, includes-without id k (ids room.players), same_iff id k, same_iff k id))

  pub host_leave-HasSeat :
      (room : Room S) (ctx : ReduceContext S V) (k : Text)
      → HasSeat k room
      → HasSeat k (step room leave host ctx)
  unfolding step room_reduce leave_room
  host_leave-HasSeat room ctx k h = h

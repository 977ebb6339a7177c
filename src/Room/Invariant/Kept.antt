-- ===== src/Room/Invariant/Kept.antt =====
-- Every event keeps the invariant.
use klatchr.Game.{Viewer}
use klatchr.Room.{
  Room, RoomEvent, ReduceContext, join, leave, select_game, configure_game, start_game, game_event,
  end_game, room_reduce,
}
use klatchr.Room.Step.{
  step, join_cases, leave_cases, choose_cases, configure_cases, start_cases, play_cases,
  finish_cases,
}
use klatchr.Room.Invariant.{Inv, IsFresh}
use klatchr.Room.Invariant.Seats.{seat_joiner-Inv, drop_player-Inv, closed-Inv}
use klatchr.Room.Invariant.Rounds.{
  choose-Inv, begin_round-Inv, scores-Inv, advance_game-Inv, configured-Inv,
}

module _ {S V : Type 0} where
  -- Every event keeps the invariant, accepted or not, whoever sends it; a join needs a fresh id.
  pub step-Inv :
      (room : Room S) (event : RoomEvent) (actor : Viewer) (ctx : ReduceContext S V)
      → IsFresh room ctx
      → Inv ctx.registry room
      → Inv ctx.registry (step room event actor ctx)
  unfolding step room_reduce
  step-Inv room (join nickname token) actor ctx free v =
      join_cases (Inv ctx.registry) room nickname token ctx v
        λ display small. seat_joiner-Inv room display ctx free small v
  step-Inv room leave actor ctx free v =
      leave_cases (Inv ctx.registry) room actor ctx (closed-Inv room v)
        λ id. drop_player-Inv room id ctx v
  step-Inv room (select_game id) actor ctx free v =
      choose_cases (Inv ctx.registry) room id actor ctx v λ config. choose-Inv room id config v
  step-Inv room (configure_game config) actor ctx free v =
      configure_cases (Inv ctx.registry) room config actor v λ off. configured-Inv room config off v
  step-Inv room start_game actor ctx free v =
      start_cases (Inv ctx.registry) room actor ctx v λ id game selected registered unspent.
        begin_round-Inv room id game ctx selected registered unspent v
  step-Inv room (game_event event) actor ctx free v =
      play_cases (Inv ctx.registry) room event ctx v
        λ game next found on reduced. advance_game-Inv room game next on v
  step-Inv room end_game actor ctx free v =
      finish_cases (Inv ctx.registry) room actor ctx v
        λ game found on. scores-Inv room game room.game_state v

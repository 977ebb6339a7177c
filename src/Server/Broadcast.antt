-- ===== src/Server/Broadcast.antt =====
-- apps/server/src/roomSession.ts: the frames of a room, and the broadcast that sends them.
use klatchr.Prelude.{
  ℕ, Bool, true, false, ◌||◌, Option, none, some, List, [], ◌∷◌, ◌++◌, map, codes, if◌then◌else◌,
}
use klatchr.Game.{Game, Score, Viewer}
use klatchr.Registry.{get_game}
use klatchr.Room.{Room, Phase, lobby, round_scores, is_scores}
use klatchr.Games.Catalogue.{AnyState, AnyView, nothing}
use klatchr.Server.Wire.{Frame, framed, failed, send, closed_out}
use klatchr.Server.Session.{Session, Context, emit}

unfoldable pub is_lobby : Phase → Bool
is_lobby lobby = true
is_lobby p = false

unfoldable pub is_null : AnyState → Bool
is_null nothing = true
is_null s = false

unfoldable pub chosen_game : Room AnyState → Context → Option (Game AnyState AnyView)
chosen_game room ctx = elim room.selected_game_id [
  | none ↦ none
  | some id ↦ get_game ctx.registry id
]

-- The redacted payload of a frame: the view, and the scores once they are shown.
unfoldable pub game_for : Room AnyState → Context → Viewer → Option AnyView × Option (List Score)
game_for room ctx viewer = elim (chosen_game room ctx) [
  | none ↦ (none, none)
  | some game ↦ if is_null room.game_state || is_lobby room.phase then (none, none) else (
    some (game.view room.game_state viewer),
    if is_scores room.phase then some (round_scores room game) else none,
  )
]

unfoldable pub rounds_total : Room AnyState → Context → ℕ
rounds_total room ctx = elim (chosen_game room ctx) [
  | none ↦ 0
  | some game ↦ elim game.round_count [ none ↦ 0 | some count ↦ count room.game_config ]
]

unfoldable pub frame_for : Room AnyState → Context → Viewer → Frame
frame_for room ctx viewer =
    let (view, scores) = game_for room ctx viewer in
    record {
      code = room.code;
      phase = room.phase;
      players =
          map (λ p. record { id = p.id; nickname = p.nickname; spectator = p.spectator })
            room.players;
      selected_game_id = room.selected_game_id;
      game_view = view;
      scores = scores;
      session_scores = map (λ e. record { player_id = e.0; points = e.1 }) room.session_scores;
      round = room.round;
      rounds_total = rounds_total room ctx;
    }

-- The room is gone: everybody is told, and nothing stays behind.
unfoldable pub close_out : Session → Session
close_out s =
    emit (record s { members = []; reapers = []; host_reaping = false })
      (map (λ m. send m.0 (failed s.room.code (codes "ROOM_CLOSED"))) s.members
        ++ closed_out s.room.code (map (λ m. m.0) s.members) ∷ [])

unfoldable pub broadcast : Session → Context → Session
broadcast s ctx =
    if s.room.closed
    then close_out s
    else emit s (map (λ m. send m.0 (framed (frame_for s.room ctx m.1))) s.members)

-- The microtask that a scheduled broadcast runs in.
unfoldable pub flush : Session → Context → Session
flush s ctx =
    if s.pending_broadcast then broadcast (record s { pending_broadcast = false }) ctx else s

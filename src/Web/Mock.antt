-- ===== src/Web/Mock.antt =====
-- apps/web/src/transport/mockRoom.ts: the room that the tests run in the browser, with the actions
-- that it applies and the frames that it shows. Its bots and its subscribers are left out.
use klatchr.Prelude.{
  ◌≡◌, Bool, false, not, ◌&&◌, Option, none, some, List, map, if◌then◌else◌, arith, refl, ap₂,
}
use klatchr.Game.{Game, Score, Viewer}
use klatchr.Room.{Room, RoomEvent, is_scores}
use klatchr.Games.Catalogue.{AnyState, AnyView}
use klatchr.Server.Session.{Context}
use klatchr.Server.Broadcast.{frame_for, game_for, rounds_total, chosen_game, is_null, is_lobby}
use klatchr.Web.Wire.{
  Action, ViewFrame, select_game, configure_game, start_game, end_game, leave, game_event, to_frame,
}

-- The room event that the mock engine makes of an action.
unfoldable pub mock_event : Action → RoomEvent
mock_event (select_game game_id) = RoomEvent.select_game game_id
mock_event (configure_game config) = RoomEvent.configure_game config
mock_event start_game = RoomEvent.start_game
mock_event end_game = RoomEvent.end_game
mock_event leave = RoomEvent.leave
mock_event (game_event event) = RoomEvent.game_event event

unfoldable pub is_live : Room AnyState → Bool
is_live room = not (is_null room.game_state) && not (is_lobby room.phase)

unfoldable pub mock_view : Room AnyState → Option (Game AnyState AnyView) → Viewer → Option AnyView
mock_view room none viewer = none
mock_view room (some game) viewer =
    if is_live room then some (game.view room.game_state viewer) else none

unfoldable pub mock_scores : Room AnyState → Option (Game AnyState AnyView) → Option (List Score)
mock_scores room none = none
mock_scores room (some game) =
    if is_live room && is_scores room.phase then some (game.scores room.game_state) else none

unfoldable pub mock_frame_for : Room AnyState → Context → Viewer → ViewFrame
mock_frame_for room ctx viewer = record {
  code = room.code;
  phase = room.phase;
  viewer = viewer;
  players =
      map (λ p. record { id = p.id; nickname = p.nickname; spectator = p.spectator }) room.players;
  selected_game_id = room.selected_game_id;
  game_view = mock_view room (chosen_game room ctx) viewer;
  scores = mock_scores room (chosen_game room ctx);
  session_scores = map (λ e. record { player_id = e.0; points = e.1 }) room.session_scores;
  round = room.round;
  rounds_total = rounds_total room ctx;
}

mock_game :
    (room : Room AnyState) (ctx : Context) (viewer : Viewer) (o : Option (Game AnyState AnyView))
    → chosen_game room ctx ≡ o
    → is_scores room.phase ≡ false
    → (mock_view room o viewer ≡ (game_for room ctx viewer).0)
      × (mock_scores room o ≡ (game_for room ctx viewer).1)
unfolding game_for mock_view mock_scores is_live
mock_game room ctx viewer none chosen hidden = rw (chosen, game_for) (refl, refl)
mock_game room ctx viewer (some game) chosen hidden =
    rw (chosen, game_for) (ground arith, ground arith)

-- Until the scores are shown, the mock engine's frame for a viewer is the one that the transport
-- makes of the server's frame.
pub mock_frame_for-to_frame :
    (room : Room AnyState) (ctx : Context) (viewer : Viewer)
    → is_scores room.phase ≡ false
    → mock_frame_for room ctx viewer ≡ to_frame (frame_for room ctx viewer) viewer
unfolding mock_frame_for to_frame frame_for
mock_frame_for-to_frame room ctx viewer hidden =
    let shown = mock_game room ctx viewer (chosen_game room ctx) refl hidden in
    ap₂
      (λ (view : Option AnyView) (scores : Option (List Score)).
        record (mock_frame_for room ctx viewer) { game_view = view; scores = scores })
      shown.0 shown.1

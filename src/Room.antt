-- ===== src/Room.antt =====
-- packages/core/src/room.ts: the reducer of the room that every game runs in; the room itself is in
-- the child `State`. A reducer returns `kept` where the source returns the very room it was given.
pub mod Step
pub mod Invariant
pub mod Authority
pub mod Ledger
pub mod Session
pub mod Reach
pub mod Seated
pub mod State
pub use State.*
unfoldable pub use State.{
  is_in_game, is_scores, is_host, create_room, token_owner, require_host, ledger_key,
  player_id_for_token, require_host_before_game, resumes, is_selected, configure, reclaim, park,
}
use klatchr.Prelude.{
  ℕ, suc, ◌+◌, Bool, true, false, not, ◌&&◌, List, [], ◌∷◌, ◌++◌, map, Option, none, some, Text,
  Dict, lookup, insert, omit, has, same, includes, codes, Result, ok, err, Next, kept, fresh,
  next_of, ltb, leb, if◌then◌else◌, length, filter, find,
}
use klatchr.Value.{Value, undefined, is_advance, is_roster_type}
use klatchr.Value.Equality.{same_json}
use klatchr.Strings.{Unicode, normalise_nickname}
use klatchr.Game.{
  Game, GameDeps, GameError, Player, Viewer, player, host, Score, RosterEvent, player_joined,
  player_left, roster_value, max_players_bound,
}
use klatchr.Registry.{Registry, get_game, has_game}
use klatchr.Rounds.{seat_window, fold_scores}

module _ {S V : Type 0} where
  unfoldable pub round_scores : Room S → Game S V → List Score
  round_scores room game =
      filter (λ s. includes (ids room.players) s.player_id) (game.scores room.game_state)

  unfoldable pub active_game : Room S → ReduceContext S V → Option (Game S V)
  active_game room ctx = elim room.selected_game_id [
    | none ↦ none
    | some id ↦ get_game ctx.registry id
  ]

  unfoldable pub forward_roster : Room S → RosterEvent → ReduceContext S V → S
  forward_roster room event ctx =
      if is_in_game room.phase
      then elim (active_game room ctx) [
        | none ↦ room.game_state
        | some game ↦ elim (game.reduce room.game_state (roster_value event)) [
          | ok next ↦ next_of room.game_state next
          | err e ↦ room.game_state
        ]
      ]
      else room.game_state

  -- The new player of a join that is let in.
  unfoldable pub new_player : Room S → Text → ReduceContext S V → Player
  new_player room display ctx = record {
    id = ctx.id;
    nickname = display;
    joined_during_game = is_in_game room.phase;
    spectator = is_in_game room.phase;
  }

  -- The tail of `join`, once the nickname, the token and the room's size have been checked.
  unfoldable pub seat_joiner : Room S → Text → ReduceContext S V → Room S
  seat_joiner room display ctx =
      let p = new_player room display ctx in
      reclaim (ledger_key ctx.unicode display) ctx.id (record room {
        players = room.players ++ p ∷ [];
        tokens = insert ctx.id ctx.secret room.tokens;
        game_state = forward_roster room (player_joined p) ctx;
      })

  unfoldable pub join_room :
      Room S → Text → Option Text → ReduceContext S V → Result (Next (Room S)) RoomError
  join_room room raw_nickname reconnect_token ctx =
      elim (normalise_nickname ctx.unicode raw_nickname) [
        | err e ↦ err (plain empty_nickname)
        | ok normalised ↦
            if resumes room reconnect_token
            then ok kept
            else if leb max_players_bound (length room.players)
            then err (plain room_full)
            else ok (fresh (seat_joiner room normalised.display ctx))
      ]

  -- A player's leave, or the reaping of a slot.
  unfoldable pub drop_player : Room S → Text → ReduceContext S V → Room S
  drop_player room id ctx = record room {
    players = filter (λ p. not (same p.id id)) room.players;
    tokens = omit id room.tokens;
    session_scores = omit id room.session_scores;
    score_ledger =
        park ctx.unicode (find (λ p. same p.id id) room.players) (lookup id room.session_scores)
          room.score_ledger;
    game_state = forward_roster room (player_left id) ctx;
  }

  unfoldable pub leave_room : Room S → Viewer → ReduceContext S V → Result (Next (Room S)) RoomError
  leave_room room host ctx = ok (fresh (record room { closed = true }))
  leave_room room (player id) ctx = ok (fresh (drop_player room id ctx))

  unfoldable pub choose_game :
      Room S → Text → Viewer → ReduceContext S V → Result (Next (Room S)) RoomError
  choose_game room game_id actor ctx = elim (require_host actor) [
    | some e ↦ err e
    | none ↦
        if not (has_game ctx.registry game_id)
        then err (plain game_not_registered)
        else if is_in_game room.phase
        then err (plain wrong_phase)
        else ok (
            fresh (record room {
              phase = lobby;
              selected_game_id = some game_id;
              round = 0;
              session_scores = [];
              score_ledger = [];
              game_config = if is_selected room game_id then room.game_config else undefined;
            }))
  ]

  -- Whether the game's `roundCount`, if it has one, is used up.
  unfoldable pub is_spent : Game S V → Room S → Bool
  is_spent game room = elim game.round_count [
    | none ↦ false
    | some count ↦ leb (count room.game_config) room.round
  ]

  -- The room as a round begins.
  unfoldable pub begin_round : Game S V → Room S → ReduceContext S V → Room S
  begin_round game room ctx =
      let seated = seat_window room.players game.max_players (room.round + 1) in
      record room {
        phase = in_game;
        game_state =
            game.init (filter (λ p. not p.spectator) seated)
              (record (ctx.game_deps) { round = room.round + 1 }) room.game_config;
        players = seated;
        round = room.round + 1;
      }

  unfoldable pub start : Room S → Viewer → ReduceContext S V → Result (Next (Room S)) RoomError
  start room actor ctx = elim (require_host_before_game room actor) [
    | some e ↦ err e
    | none ↦ elim room.selected_game_id [
      | none ↦ err (plain no_game_selected)
      | some id ↦ elim (get_game ctx.registry id) [
        | none ↦ err (plain game_not_registered)
        | some game ↦
            if ltb (length room.players) game.min_players
            then err (plain below_min_players)
            else if is_spent game room
            then err (plain session_complete)
            else ok (fresh (begin_round game room ctx))
      ]
    ]
  ]

  -- What the room becomes when the game's reducer gave a state.
  unfoldable pub advance_game : Room S → Game S V → Next S → Next (Room S)
  advance_game room game next =
      let state = next_of room.game_state next in
      if game.is_complete state
      then fresh (record room {
        game_state = state;
        phase = scores_shown;
        session_scores =
            fold_scores room.session_scores
              (round_scores (record room { game_state = state }) game);
      })
      else elim next [
        | kept ↦ kept
        | fresh s ↦ fresh (record room { game_state = s; phase = in_game })
      ]

  unfoldable pub play_event : Room S → Value → ReduceContext S V → Result (Next (Room S)) RoomError
  play_event room event ctx =
      if is_scores room.phase && is_advance event
      then ok kept
      else if not (is_in_game room.phase)
      then err (plain game_event_outside_game)
      else if is_roster_type event
      then err (plain forbidden_event)
      else elim (active_game room ctx) [
        | none ↦ err (plain game_not_registered)
        | some game ↦ elim (game.reduce room.game_state event) [
          | err e ↦ err (record { code = game_rejected; message = some e.code })
          | ok next ↦ ok (advance_game room game next)
        ]
      ]

  unfoldable pub finish_game :
      Room S → Viewer → ReduceContext S V → Result (Next (Room S)) RoomError
  finish_game room actor ctx = elim (require_host actor) [
    | some e ↦ err e
    | none ↦
        if not (is_in_game room.phase)
        then err (plain wrong_phase)
        else elim (active_game room ctx) [
          | none ↦ err (plain game_not_registered)
          | some game ↦ ok (
              fresh (record room {
                phase = scores_shown;
                session_scores = fold_scores room.session_scores (round_scores room game);
              }))
        ]
  ]

  unfoldable pub room_reduce :
      Room S → RoomEvent → Viewer → ReduceContext S V → Result (Next (Room S)) RoomError
  room_reduce room (join nickname token) actor ctx = join_room room nickname token ctx
  room_reduce room leave actor ctx = leave_room room actor ctx
  room_reduce room (select_game id) actor ctx = choose_game room id actor ctx
  room_reduce room (configure_game config) actor ctx = configure room config actor
  room_reduce room start_game actor ctx = start room actor ctx
  room_reduce room (game_event event) actor ctx = play_event room event ctx
  room_reduce room end_game actor ctx = finish_game room actor ctx

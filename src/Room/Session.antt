-- ===== src/Room/Session.antt =====
-- packages/core/src/room.ts: a session's rounds, which begin with enough players and end with their
-- points in the tally.
use klatchr.Prelude.{
  ℕ, ◌+◌, ◌≤◌, ◌≡◌, refl, subst, true, false, some, List, [], ◌∷◌, Text, lookup, same_iff, includes,
  filter, length, min, ok, Next, fresh, next_of, arith, if◌then◌else◌,
}
use klatchr.Value.{Value, is_roster_type}
use klatchr.Game.{Game, Score, Viewer, host, max_players_bound, min_players_bound}
use klatchr.Registry.{get_game, create_registry}
use klatchr.Registry.Laws.{get_game-InBounds}
use klatchr.Rounds.{points_or_zero}
use klatchr.Rounds.Tally.{earned, fold_scores_total}
use klatchr.Rounds.Seats.{ids-seat_window, active, length-active-seat_window}
use klatchr.Room.{
  Room, ReduceContext, in_game, scores_shown, start_game, game_event, end_game, room_reduce, start,
  play_event, finish_game, begin_round, advance_game, active_game, is_in_game, is_scores, is_host,
  require_host, round_scores, ids,
}
use klatchr.Room.Step.{step}

-- A round's points for one player: none for somebody who has no seat in the room.
abbrev pub round_points : {S V : Type 0} → Text → Room S → S → Game S V → ℕ
round_points k room state game =
    if includes (ids room.players) k then earned k (game.scores state) else 0

earned-seated :
    (k : Text) (seats : List Text) (scores : List Score)
    → earned k (filter (λ s. includes seats s.player_id) scores)
      ≡ (if includes seats k then earned k scores else 0)
unfolding earned
earned-seated k seats [] = ground arith
earned-seated k seats (s ∷ scores) =
    ground (arith, earned-seated k seats scores, same_iff s.player_id k)

module _ {S V : Type 0} (room : Room S) (game : Game S V) (ctx : ReduceContext S V) where
  -- When the host ends a running round early, it still counts: the room shows the scores, and
  -- every player's total grows by exactly what the game gives them if they are seated, and not
  -- otherwise.
  pub tally_after_end :
      (k : Text)
      → room.phase ≡ in_game
      → active_game room ctx ≡ some game
      → let room' = step room end_game host ctx in
        (room'.phase ≡ scores_shown)
        × (points_or_zero (lookup k room'.session_scores)
            ≡ points_or_zero (lookup k room.session_scores)
              + round_points k room room.game_state game)
  unfolding step room_reduce finish_game require_host is_host is_in_game round_scores
  tally_after_end k playing found = ground (
    arith,
    fold_scores_total k room.session_scores
        (filter (λ s. includes (ids room.players) s.player_id) (game.scores room.game_state)),
    earned-seated k (ids room.players) (game.scores room.game_state),
  )

  -- The event, no roster fact, that completes a running round ends it the same way: the new state
  -- is kept, the scores are shown, and every player's total grows by exactly what the game gives
  -- them if they are seated, and not otherwise.
  pub tally_after_last_event :
      (k : Text) (event : Value) (actor : Viewer) (next : Next S)
      → room.phase ≡ in_game
      → active_game room ctx ≡ some game
      → is_roster_type event ≡ false
      → game.reduce room.game_state event ≡ ok next
      → game.is_complete (next_of room.game_state next) ≡ true
      → let room' = step room (game_event event) actor ctx in
        (room'.phase ≡ scores_shown)
        × (room'.game_state ≡ next_of room.game_state next)
        × (points_or_zero (lookup k room'.session_scores)
            ≡ points_or_zero (lookup k room.session_scores)
              + round_points k room (next_of room.game_state next) game)
  unfolding step room_reduce play_event advance_game is_in_game is_scores round_scores
  tally_after_last_event k event actor next playing found plain_event reduced done = ground (
    arith,
    fold_scores_total k room.session_scores (
        filter (λ s. includes (ids room.players) s.player_id)
          (game.scores (next_of room.game_state next))),
    earned-seated k (ids room.players) (game.scores (next_of room.game_state next)),
  )

  start-ok :
      (actor : Viewer) (id : Text) (room' : Room S)
      → room.selected_game_id ≡ some id
      → get_game ctx.registry id ≡ some game
      → start room actor ctx ≡ ok (fresh room')
      → (begin_round game room ctx ≡ room') × (game.min_players ≤ length room.players)
  unfolding start
  start-ok actor id room' chosen found started = ground arith

  active-begin_round :
      length (active (begin_round game room ctx).players)
      ≡ min (length room.players) game.max_players
  unfolding begin_round
  active-begin_round = length-active-seat_window room.players game.max_players (room.round + 1)

  begin_round-counts :
      ((begin_round game room ctx).phase ≡ in_game)
      × ((begin_round game room ctx).round ≡ room.round + 1)
  unfolding begin_round
  begin_round-counts = (refl, refl)

  -- Whom a round is dealt to.
  begin_round-dealt :
      (begin_round game room ctx).game_state
      ≡ game.init
          (active (begin_round game room ctx).players)
          (record (ctx.game_deps) { round = room.round + 1 })
          room.game_config
  unfolding begin_round
  begin_round-dealt = refl

  ids-begin_round : ids (begin_round game room ctx).players ≡ ids room.players
  unfolding begin_round
  ids-begin_round = ids-seat_window room.players game.max_players (room.round + 1)

  -- A round that starts over a registry made by `createRegistry` is dealt to those who do not look
  -- on, and to nobody else: the game begins with just them. They are at least the game's minimum and
  -- as many of the room as its maximum lets in, between 2 and 50; nobody has left the room.
  pub started_round_players :
      (games : List (Game S V)) (actor : Viewer) (id : Text) (room' : Room S)
      → create_registry games ≡ ok ctx.registry
      → room.selected_game_id ≡ some id
      → get_game ctx.registry id ≡ some game
      → room_reduce room start_game actor ctx ≡ ok (fresh room')
      → (length (active room'.players) ≡ min (length room.players) game.max_players)
        × (game.min_players ≤ length (active room'.players))
        × (min_players_bound ≤ length (active room'.players))
        × (length (active room'.players) ≤ max_players_bound)
        × (room'.phase ≡ in_game)
        × (room'.round ≡ room.round + 1)
        × (room'.game_state
            ≡ game.init
                (active room'.players)
                (record (ctx.game_deps) { round = room.round + 1 })
                room.game_config)
        × (ids room'.players ≡ ids room.players)
  unfolding room_reduce
  started_round_players games actor id room' made chosen found started =
      let (begun, enough) = start-ok actor id room' chosen found started in
      let (inside, _) = get_game-InBounds games ctx.registry id game made found in
      let seats : length (active room'.players) ≡ min (length room.players) game.max_players =
        subst (λ q. length (active q.players) ≡ min (length room.players) game.max_players) begun
          active-begin_round in
      let (on, counted) = begin_round-counts in
      (
        seats,
        omega (arith, seats, inside.ordered),
        omega (arith, seats, inside.ordered, inside.enough),
        omega (arith, seats, inside.fits),
        subst (λ q. q.phase ≡ in_game) begun on,
        subst (λ q. q.round ≡ room.round + 1) begun counted,
        subst
            (λ q.
              q.game_state
              ≡ game.init (active q.players) (record (ctx.game_deps) { round = room.round + 1 })
                  room.game_config)
            begun begin_round-dealt,
        subst (λ q. ids q.players ≡ ids room.players) begun ids-begin_round,
      )

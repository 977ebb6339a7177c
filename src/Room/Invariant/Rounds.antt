-- ===== src/Room/Invariant/Rounds.antt =====
-- The choice of a game, its configuration and its rounds keep the invariant.
use klatchr.Prelude.{
  ℕ, ◌+◌, ◌≤◌, ◌≡◌, sym, ◌∙◌, subst, true, false, some, List, [], ◌∷◌, map, Text, Dict, has,
  same_iff, includes, filter, arith, Next, kept, fresh, next_of, inl, inr, Bool-cases,
}
use klatchr.Value.{Value}
use klatchr.Game.{Game, Score}
use klatchr.Registry.{Registry, get_game}
use klatchr.Rounds.{fold_scores}
use klatchr.Rounds.Tally.{has-fold_scores}
use klatchr.Rounds.Seats.{ids-seat_window, length-seat_window}
use klatchr.Room.{
  Room, ReduceContext, lobby, in_game, scores_shown, begin_round, advance_game, is_spent,
  is_in_game, round_scores, ids,
}
use klatchr.Room.Invariant.{Inv}

module _ {S V : Type 0} where
  seated_points :
      (room : Room S) (game : Game S V) (k : Text) (scores : List Score)
      → includes
          (map (λ s. s.player_id) (filter (λ s. includes (ids room.players) s.player_id) scores))
          k
        ≡ true
      → includes (ids room.players) k ≡ true
  unfolding includes
  seated_points room game k [] h = cc
  seated_points room game k (s ∷ scores) h =
      ground (arith, seated_points room game k scores, same_iff s.player_id k)

  -- A round's points go to seated players only.
  fold-round_scores-seated :
      (room : Room S) (game : Game S V) (base : Dict ℕ)
      → ((k : Text) → has k base ≡ true → includes (ids room.players) k ≡ true)
      → (k : Text) → has k (fold_scores base (round_scores room game)) ≡ true
      → includes (ids room.players) k ≡ true
  unfolding round_scores
  fold-round_scores-seated room game base before k h = ground (
    arith,
    before k,
    has-fold_scores k base
        (filter (λ s. includes (ids room.players) s.player_id) (game.scores room.game_state)),
    seated_points room game k (game.scores room.game_state),
  )

  pub choose-Inv :
      (room : Room S) (id : Text) (config : Value) {r : Registry S V}
      → Inv r room
      → Inv r (record room {
        phase = lobby;
        selected_game_id = some id;
        round = 0;
        session_scores = [];
        score_ledger = [];
        game_config = config;
      })
  unfolding is_in_game has includes
  choose-Inv room id config v = record {
    bounded = v.bounded;
    distinct = v.distinct;
    tokens_match = v.tokens_match;
    scores_seated = λ k h. cc;
    playing = λ h. cc;
    within_set = λ i game count s g c. omega arith;
  }

  unspent_round :
      (room : Room S) (game : Game S V) (count : Value → ℕ)
      → game.round_count ≡ some count
      → is_spent game room ≡ false
      → room.round + 1 ≤ count room.game_config
  unfolding is_spent
  unspent_round room game count c h = ground arith

  game_unique :
      (r : Registry S V) (room : Room S) (i j : Text) (g h : Game S V)
      → room.selected_game_id ≡ some i
      → room.selected_game_id ≡ some j
      → get_game r i ≡ some g
      → get_game r j ≡ some h
      → g ≡ h
  game_unique r room i j g h si sj gi hj = cc

  pub begin_round-Inv :
      (room : Room S) (id : Text) (game : Game S V) (ctx : ReduceContext S V)
      → room.selected_game_id ≡ some id
      → get_game ctx.registry id ≡ some game
      → is_spent game room ≡ false
      → Inv ctx.registry room
      → Inv ctx.registry (begin_round game room ctx)
  unfolding begin_round
  begin_round-Inv room id game ctx selected registered unspent v = record {
    bounded = rw (length-seat_window room.players game.max_players (room.round + 1)) v.bounded;
    distinct = rw (ids-seat_window room.players game.max_players (room.round + 1)) v.distinct;
    tokens_match =
        v.tokens_match ∙ sym (ids-seat_window room.players game.max_players (room.round + 1));
    scores_seated = λ k h.
        rw (ids-seat_window room.players game.max_players (room.round + 1)) (v.scores_seated k h);
    playing = λ h. record {
      id = id;
      game = game;
      selected = selected;
      registered = registered;
      counted = omega arith;
    };
    within_set = λ i g count s got c.
        unspent_round room game count
          (subst (λ j. j.round_count ≡ some count)
            (game_unique ctx.registry room i id g game s selected got registered) c)
          unspent;
  }

  pub scores-Inv :
      (room : Room S) (game : Game S V) (state : S) {r : Registry S V}
      → Inv r room
      → Inv r (record room {
        game_state = state;
        phase = scores_shown;
        session_scores =
            fold_scores room.session_scores
              (round_scores (record room { game_state = state }) game);
      })
  unfolding is_in_game
  scores-Inv room game state v = record {
    bounded = v.bounded;
    distinct = v.distinct;
    tokens_match = v.tokens_match;
    scores_seated =
        fold-round_scores-seated (record room { game_state = state }) game room.session_scores
          v.scores_seated;
    playing = λ h. cc;
    within_set = v.within_set;
  }

  state-Inv :
      (room : Room S) (state : S) {r : Registry S V}
      → is_in_game room.phase ≡ true
      → Inv r room
      → Inv r (record room { game_state = state; phase = in_game })
  state-Inv room state on v = record {
    bounded = v.bounded;
    distinct = v.distinct;
    tokens_match = v.tokens_match;
    scores_seated = v.scores_seated;
    playing = λ h. v.playing on;
    within_set = v.within_set;
  }

  pub advance_game-Inv :
      (room : Room S) (game : Game S V) (next : Next S) {r : Registry S V}
      → is_in_game room.phase ≡ true
      → Inv r room
      → Inv r (next_of room (advance_game room game next))
  unfolding advance_game
  advance_game-Inv room game kept on v = elim (Bool-cases (game.is_complete room.game_state)) [
    | inl done ↦ rw (done, next_of) (scores-Inv room game room.game_state v)
    | inr more ↦ rw (more, next_of) v
  ]
  advance_game-Inv room game (fresh s) on v = elim (Bool-cases (game.is_complete s)) [
    | inl done ↦ rw (done, next_of) (scores-Inv room game s v)
    | inr more ↦ rw (more, next_of) (state-Inv room s on v)
  ]

  pub configured-Inv :
      (room : Room S) (config : Value) {r : Registry S V}
      → is_in_game room.phase ≡ false
      → Inv r room
      → Inv r (record room { game_config = config; round = 0; session_scores = [] })
  unfolding has includes
  configured-Inv room config off v = record {
    bounded = v.bounded;
    distinct = v.distinct;
    tokens_match = v.tokens_match;
    scores_seated = λ k h. cc;
    playing = λ h. cc;
    within_set = λ i game count s g c. omega arith;
  }

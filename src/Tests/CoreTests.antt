-- ===== src/Tests/CoreTests.antt =====
-- The theorems on the core, each at a concrete input.
use klatchr.Prelude.{
  if◌then◌else◌, ℕ, zero, suc, ◌+◌, ◌*◌, ◌%◌, ◌≤◌, ◌<◌, ◌≡◌, ◌≢◌, ◌↔◌, refl, true, false, Option,
  none, some, List, [], ◌∷◌, Text, codes, length, min, lookup, has, includes, same, ok, err, kept,
  fresh, next_of, after, All, arith, get_elem?, Result, Next,
}
use klatchr.Value.{Value, undefined}
use klatchr.Strings.{bounded_text, normalise_nickname, NormalisedNickname, units_per_char}
use klatchr.Strings.Bounds.{normalise_nickname-bounds}
use klatchr.Game.{Game, Viewer, player, host, Score, Player, max_players_bound, min_players_bound}
use klatchr.Registry.{Registry, get_game, create_registry}
use klatchr.RoomCode.{generate_room_code, is_room_code, build_code}
use klatchr.RoomCode.Laws.{generate_room_code-valid, generate_room_code-total}
use klatchr.Rounds.{seat_window, fold_scores, points_or_zero}
use klatchr.Rounds.Seats.{active, seat_window_rotates}
use klatchr.Rounds.Tally.{earned}
use klatchr.Room.{
  Room, join, leave, select_game, configure_game, start_game, game_event, end_game, room_reduce,
  plain, not_host, forbidden_event, session_complete, RoomError, in_game, scores_shown, ledger_key,
  is_in_game, ids,
}
use klatchr.Room.Step.{step}
use klatchr.Room.Invariant.{Inv}
use klatchr.Room.Reach.{Reach-Inv, HoldsOwn}
use klatchr.Room.Session.{tally_after_last_event, started_round_players}
use klatchr.Room.Ledger.{rejoin_reclaims, reclaim_after_configure}
use klatchr.Room.Authority.{
  host_only_refused, pre_game_refused, forged_roster_refused, late_advance_kept,
}
use klatchr.Games.Prompts.{prompt_count}
use klatchr.Games.Catalogue.{
  AnyState, AnyView, nothing, catalogue, games, guess_who, most_likely_to,
}
use klatchr.Games.Catalogue.Owned.{catalogue_states, catalogue_rooms_owned, create_registry-games}
use klatchr.Tests.Samples.{
  latin, ctx, bob, cleo, trio, code, host_id, chosen_room, playing_room, voted_room, ended_room,
  ended_room_reached, bob_seated, bob_points, advance_event,
}

ended_room-Inv : Inv (catalogue latin) ended_room
ended_room-Inv = Reach-Inv (catalogue latin) nothing code host_id ended_room_reached

Reach-Inv_example : Inv (catalogue latin) ended_room
Reach-Inv_example = Reach-Inv (catalogue latin) nothing code host_id ended_room_reached

catalogue_rooms_owned_example : HoldsOwn (catalogue latin) (catalogue_states latin) ended_room
catalogue_rooms_owned_example = catalogue_rooms_owned latin code host_id ended_room_reached

tally_after_last_event_example :
    let room' = step voted_room (game_event advance_event) host (ctx (codes "d")) in
    (room'.phase ≡ scores_shown)
    × (room'.game_state
        ≡ next_of voted_room.game_state (
            fresh (
              after voted_room.game_state
                ((most_likely_to latin).reduce voted_room.game_state advance_event))))
    × (points_or_zero (lookup (codes "b") room'.session_scores) ≡ 0 + 1)
unfolding klatchr.Prelude.lookup klatchr.Prelude.insert klatchr.Prelude.has klatchr.Prelude.same
    klatchr.Prelude.includes klatchr.Games.strings klatchr.Room.is_in_game klatchr.Room.is_scores
    klatchr.Room.is_host klatchr.Room.create_room klatchr.Room.require_host
    klatchr.Room.require_host_before_game klatchr.Room.resumes klatchr.Room.is_selected
    klatchr.Room.reclaim klatchr.Room.active_game klatchr.Room.new_player klatchr.Room.seat_joiner
    klatchr.Room.join_room klatchr.Room.choose_game klatchr.Room.is_spent klatchr.Room.begin_round
    klatchr.Room.start klatchr.Room.advance_game klatchr.Room.play_event klatchr.Room.room_reduce
    klatchr.Value.is_record klatchr.Value.field_of klatchr.Value.read klatchr.Value.is_string
    klatchr.Value.is_text klatchr.Value.text_of klatchr.Value.is_roster_type
    klatchr.Rounds.seat_offset klatchr.Rounds.sits_out klatchr.Rounds.seat_from
    klatchr.Rounds.seat_window klatchr.Strings.is_space klatchr.Strings.trim_start
    klatchr.Strings.trim_end klatchr.Strings.trim klatchr.Strings.collapse_from
    klatchr.Strings.keep_segments klatchr.Strings.bounded_text klatchr.Strings.normalise_nickname
    klatchr.Room.Step.step klatchr.Games.Prompts.valid_prompts klatchr.Games.Prompts.prompt_count
    klatchr.Games.MostLikely.init klatchr.Games.MostLikely.is_event
    klatchr.Games.MostLikely.event_of klatchr.Games.MostLikely.on_advance
    klatchr.Games.MostLikely.dispatch klatchr.Games.MostLikely.reduce
    klatchr.Games.MostLikely.is_complete klatchr.Games.Catalogue.map_result
    klatchr.Games.Catalogue.reduce_most_likely klatchr.Games.Catalogue.scores_most_likely
    klatchr.Games.Catalogue.most_likely_complete klatchr.Games.MostLikely.is_vote
    klatchr.Games.MostLikely.on_vote klatchr.Games.MostLikely.candidates
    klatchr.Games.MostLikely.live_votes klatchr.Games.MostLikely.votes_for
    klatchr.Games.MostLikely.tally earned
tally_after_last_event_example =
    tally_after_last_event voted_room (most_likely_to latin) (ctx (codes "d")) (codes "b")
      advance_event host
      (fresh (
        after voted_room.game_state
          ((most_likely_to latin).reduce voted_room.game_state advance_event)))
      refl refl refl refl refl

started_round_players_example :
    (length (active playing_room.players) ≡ min 3 20)
    × (3 ≤ length (active playing_room.players))
    × (min_players_bound ≤ length (active playing_room.players))
    × (length (active playing_room.players) ≤ max_players_bound)
    × (playing_room.phase ≡ in_game)
    × (playing_room.round ≡ 1)
    × (playing_room.game_state
        ≡ (most_likely_to latin).init
            (active playing_room.players)
            (record ((ctx (codes "d")).game_deps) { round = 1 })
            chosen_room.game_config)
    × (ids playing_room.players ≡ ids chosen_room.players)
unfolding klatchr.Prelude.lookup klatchr.Prelude.has klatchr.Prelude.same klatchr.Prelude.includes
    klatchr.Room.is_in_game klatchr.Room.is_host klatchr.Room.create_room klatchr.Room.require_host
    klatchr.Room.require_host_before_game klatchr.Room.resumes klatchr.Room.is_selected
    klatchr.Room.reclaim klatchr.Room.seat_joiner klatchr.Room.join_room klatchr.Room.choose_game
    klatchr.Room.is_spent klatchr.Room.start klatchr.Room.room_reduce klatchr.Strings.is_space
    klatchr.Strings.trim_start klatchr.Strings.trim_end klatchr.Strings.trim
    klatchr.Strings.collapse_from klatchr.Strings.keep_segments klatchr.Strings.bounded_text
    klatchr.Strings.normalise_nickname klatchr.Room.Step.step klatchr.Games.Prompts.valid_prompts
    klatchr.Games.Prompts.prompt_count
started_round_players_example =
    started_round_players chosen_room (most_likely_to latin) (ctx (codes "d")) (games latin) host
      (codes "most-likely-to") playing_room (create_registry-games latin) refl refl refl

rejoin_reclaims_example :
    let back =
      step
        (step ended_room leave (player (codes "b")) (ctx (codes "x")))
        (join (codes "BOB") none)
        (player (codes "b"))
        (ctx (codes "e")) in
    (lookup (codes "e") back.session_scores ≡ some 1)
    × (lookup (codes "b") back.session_scores ≡ none)
    × (lookup (codes "bob") back.score_ledger ≡ none)
unfolding klatchr.Prelude.same klatchr.Room.ledger_key klatchr.Strings.is_space
    klatchr.Strings.trim_start klatchr.Strings.trim_end klatchr.Strings.trim
    klatchr.Strings.collapse_from klatchr.Strings.keep_segments klatchr.Strings.bounded_text
    klatchr.Strings.normalise_nickname
rejoin_reclaims_example =
    rejoin_reclaims ended_room (codes "b") bob 1 (codes "BOB") (record { display = codes "BOB" })
      (ctx (codes "x")) (ctx (codes "e")) ended_room-Inv bob_seated bob_points refl refl refl

abbrev new_set : Value
new_set = klatchr.Value.obj klatchr.Value.end

abbrev without_bob : Room AnyState
without_bob = step ended_room leave (player (codes "b")) (ctx (codes "x"))

reclaim_after_configure_example :
    let new = step without_bob (configure_game new_set) host (ctx (codes "x")) in
    (new.session_scores ≡ [])
    × (lookup (codes "e") (step new (join (codes "bob") none) host (ctx (codes "e"))).session_scores
        ≡ some 1)
unfolding klatchr.Prelude.lookup klatchr.Prelude.insert klatchr.Prelude.omit klatchr.Prelude.has
    klatchr.Prelude.same klatchr.Prelude.includes klatchr.Games.is_roster_event
    klatchr.Games.strings klatchr.Games.departed klatchr.Room.is_in_game klatchr.Room.is_scores
    klatchr.Room.is_host klatchr.Room.create_room klatchr.Room.token_owner klatchr.Room.require_host
    klatchr.Room.ledger_key klatchr.Room.player_id_for_token klatchr.Room.require_host_before_game
    klatchr.Room.resumes klatchr.Room.is_selected klatchr.Room.configure klatchr.Room.reclaim
    klatchr.Room.park klatchr.Room.round_scores klatchr.Room.active_game klatchr.Room.forward_roster
    klatchr.Room.new_player klatchr.Room.seat_joiner klatchr.Room.join_room klatchr.Room.drop_player
    klatchr.Room.leave_room klatchr.Room.choose_game klatchr.Room.is_spent klatchr.Room.begin_round
    klatchr.Room.start klatchr.Room.advance_game klatchr.Room.play_event klatchr.Room.finish_game
    klatchr.Room.room_reduce klatchr.Value.is_record klatchr.Value.field_of klatchr.Value.read
    klatchr.Value.is_string klatchr.Value.is_boolean klatchr.Value.is_text klatchr.Value.text_of
    klatchr.Value.is_advance klatchr.Value.is_roster_type klatchr.Game.player_value
    klatchr.Game.roster_value klatchr.Rounds.seat_offset klatchr.Rounds.sits_out
    klatchr.Rounds.seat_from klatchr.Rounds.seat_window klatchr.Rounds.fold_scores
    klatchr.Registry.assert_bounds klatchr.Registry.register klatchr.Registry.create_registry
    klatchr.Strings.is_space klatchr.Strings.trim_start klatchr.Strings.trim_end
    klatchr.Strings.trim klatchr.Strings.collapse_from klatchr.Strings.keep_segments
    klatchr.Strings.bounded_text klatchr.Strings.normalise_nickname klatchr.Room.Step.step
    klatchr.Games.Prompts.items_list klatchr.Games.Prompts.has_field
    klatchr.Games.Prompts.clean_items klatchr.Games.Prompts.some_prompts klatchr.Games.Prompts.clean
    klatchr.Games.Prompts.valid_prompts klatchr.Games.Prompts.session_bank
    klatchr.Games.Prompts.prompt_at klatchr.Games.Prompts.choose_prompt
    klatchr.Games.Prompts.prompt_count klatchr.Games.MostLikely.init
    klatchr.Games.MostLikely.is_event klatchr.Games.MostLikely.event_of
    klatchr.Games.MostLikely.on_advance klatchr.Games.MostLikely.dispatch
    klatchr.Games.MostLikely.reduce klatchr.Games.MostLikely.is_complete
    klatchr.Games.Catalogue.map_result klatchr.Games.Catalogue.reduce_guess_who
    klatchr.Games.Catalogue.view_guess_who klatchr.Games.Catalogue.scores_guess_who
    klatchr.Games.Catalogue.guess_who_complete klatchr.Games.Catalogue.reduce_most_likely
    klatchr.Games.Catalogue.view_most_likely klatchr.Games.Catalogue.scores_most_likely
    klatchr.Games.Catalogue.most_likely_complete klatchr.Games.MostLikely.is_vote
    klatchr.Games.MostLikely.on_vote klatchr.Games.MostLikely.candidates
    klatchr.Games.MostLikely.live_votes klatchr.Games.MostLikely.votes_for
    klatchr.Games.MostLikely.tally klatchr.Games.MostLikely.progress
    klatchr.Games.MostLikely.vote_view klatchr.Games.MostLikely.view_for
    klatchr.Value.Equality.same_json
reclaim_after_configure_example =
    reclaim_after_configure without_bob new_set (codes "bob") (record { display = codes "bob" }) 1
      (ctx (codes "x")) (ctx (codes "e")) refl refl (omega arith) refl refl

host_only_refused_example :
    room_reduce voted_room end_game (player (codes "a")) (ctx (codes "d")) ≡ err (plain not_host)
unfolding klatchr.Room.Authority.is_host_only klatchr.Room.Step.step
host_only_refused_example = host_only_refused voted_room (ctx (codes "d")) end_game (codes "a") refl

forged_leave : Value
forged_leave = klatchr.Game.roster_value (klatchr.Game.player_left (codes "b"))

forged_roster_refused_example :
    room_reduce voted_room (game_event forged_leave) host (ctx (codes "d"))
    ≡ err (plain forbidden_event)
unfolding klatchr.Prelude.lookup klatchr.Prelude.insert klatchr.Prelude.omit klatchr.Prelude.has
    klatchr.Prelude.same klatchr.Prelude.includes klatchr.Games.is_roster_event
    klatchr.Games.strings klatchr.Games.departed klatchr.Room.is_in_game klatchr.Room.is_scores
    klatchr.Room.is_host klatchr.Room.create_room klatchr.Room.token_owner klatchr.Room.require_host
    klatchr.Room.ledger_key klatchr.Room.player_id_for_token klatchr.Room.require_host_before_game
    klatchr.Room.resumes klatchr.Room.is_selected klatchr.Room.configure klatchr.Room.reclaim
    klatchr.Room.park klatchr.Room.round_scores klatchr.Room.active_game klatchr.Room.forward_roster
    klatchr.Room.new_player klatchr.Room.seat_joiner klatchr.Room.join_room klatchr.Room.drop_player
    klatchr.Room.leave_room klatchr.Room.choose_game klatchr.Room.is_spent klatchr.Room.begin_round
    klatchr.Room.start klatchr.Room.advance_game klatchr.Room.play_event klatchr.Room.finish_game
    klatchr.Room.room_reduce klatchr.Value.is_record klatchr.Value.field_of klatchr.Value.read
    klatchr.Value.is_string klatchr.Value.is_boolean klatchr.Value.is_text klatchr.Value.text_of
    klatchr.Value.is_advance klatchr.Value.is_roster_type klatchr.Game.player_value
    klatchr.Game.roster_value klatchr.Rounds.seat_offset klatchr.Rounds.sits_out
    klatchr.Rounds.seat_from klatchr.Rounds.seat_window klatchr.Rounds.fold_scores
    klatchr.Registry.assert_bounds klatchr.Registry.register klatchr.Registry.create_registry
    klatchr.Strings.is_space klatchr.Strings.trim_start klatchr.Strings.trim_end
    klatchr.Strings.trim klatchr.Strings.collapse_from klatchr.Strings.keep_segments
    klatchr.Strings.bounded_text klatchr.Strings.normalise_nickname klatchr.Room.Step.step
    klatchr.Games.Prompts.items_list klatchr.Games.Prompts.has_field
    klatchr.Games.Prompts.clean_items klatchr.Games.Prompts.some_prompts klatchr.Games.Prompts.clean
    klatchr.Games.Prompts.valid_prompts klatchr.Games.Prompts.session_bank
    klatchr.Games.Prompts.prompt_at klatchr.Games.Prompts.choose_prompt
    klatchr.Games.Prompts.prompt_count klatchr.Games.MostLikely.init
    klatchr.Games.MostLikely.is_event klatchr.Games.MostLikely.event_of
    klatchr.Games.MostLikely.on_advance klatchr.Games.MostLikely.dispatch
    klatchr.Games.MostLikely.reduce klatchr.Games.MostLikely.is_complete
    klatchr.Games.Catalogue.map_result klatchr.Games.Catalogue.reduce_guess_who
    klatchr.Games.Catalogue.view_guess_who klatchr.Games.Catalogue.scores_guess_who
    klatchr.Games.Catalogue.guess_who_complete klatchr.Games.Catalogue.reduce_most_likely
    klatchr.Games.Catalogue.view_most_likely klatchr.Games.Catalogue.scores_most_likely
    klatchr.Games.Catalogue.most_likely_complete klatchr.Games.MostLikely.is_vote
    klatchr.Games.MostLikely.on_vote klatchr.Games.MostLikely.candidates
    klatchr.Games.MostLikely.live_votes klatchr.Games.MostLikely.votes_for
    klatchr.Games.MostLikely.tally klatchr.Games.MostLikely.progress
    klatchr.Games.MostLikely.vote_view klatchr.Games.MostLikely.view_for forged_leave
forged_roster_refused_example =
    forged_roster_refused voted_room (ctx (codes "d")) forged_leave host refl

seat_window_rotates_example :
    (k : ℕ) × (k * 2 < 3)
    × (get_elem? (seat_window trio 2 (1 + k)) 2
        ≡ some (record cleo { spectator = false; joined_during_game = false }))
seat_window_rotates_example =
    seat_window_rotates trio 2 1 2 (omega arith) (omega arith) (omega arith) refl

generate_room_code-valid_example :
    (is_room_code (codes "AAAA") ≡ true) × (includes (codes "BBBB" ∷ []) (codes "AAAA") ≡ false)
unfolding klatchr.Prelude.same klatchr.Prelude.includes generate_room_code build_code
    klatchr.RoomCode.build_from klatchr.RoomCode.char_at
generate_room_code-valid_example =
    generate_room_code-valid 3 (λ k. 0) (codes "BBBB" ∷ []) 0 (codes "AAAA") (λ k. omega arith) refl

-- The first four draws make the code that is taken, the next four another one.
abbrev draws : ℕ → ℕ
draws k = if klatchr.Prelude.ltb k 4 then 0 else 1

generate_room_code-total_example :
    (c : Text) × (generate_room_code 2 draws (codes "AAAA" ∷ []) 0 ≡ some c)
unfolding klatchr.Prelude.same klatchr.Prelude.includes build_code klatchr.RoomCode.build_from
    klatchr.RoomCode.char_at
generate_room_code-total_example =
    generate_room_code-total 2 draws (codes "AAAA" ∷ []) 0 1 (omega arith) refl

normalise_nickname-bounds_example : (1 ≤ length (codes "Jo Jo")) × (length (codes "Jo Jo") ≤ 240)
unfolding klatchr.Strings.is_space klatchr.Strings.trim_start klatchr.Strings.trim_end
    klatchr.Strings.trim klatchr.Strings.collapse_from klatchr.Strings.keep_segments
    klatchr.Strings.bounded_text klatchr.Strings.normalise_nickname
normalise_nickname-bounds_example =
    normalise_nickname-bounds latin (codes "  Jo   Jo ") (record { display = codes "Jo Jo" }) refl

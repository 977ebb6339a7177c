-- ===== src/Tests/Samples.antt =====
-- Test data: three players, a small alphabet, and a room that plays a round of "Most Likely To".
use Prim.Native.Nat.{compare}
use klatchr.Prelude.{
  ℕ, ◌+◌, ◌*◌, ◌%◌, ◌≡◌, refl, true, false, not, Option, none, some, List, [], ◌∷◌, map, filter,
  Text, codes, length, lookup, find, same, ok, leb, ◌&&◌, if◌then◌else◌, length, Next,
}
use klatchr.Value.{Value, str, obj, end, field, undefined}
use klatchr.Strings.{Unicode, NormalisedNickname, normalise_nickname, is_space}
use klatchr.Game.{GameDeps, Player, Viewer, host}
use klatchr.Room.{
  Room, ReduceContext, RoomEvent, join, select_game, start_game, game_event, end_game, create_room,
  in_game, ledger_key, ids,
}
use klatchr.Room.Step.{step}
use klatchr.Room.Reach.{Reach, created, stepped}
use klatchr.Games.Catalogue.{AnyState, AnyView, nothing, catalogue}

abbrev pub lower_unit : ℕ → ℕ
lower_unit c = if leb 65 c && leb c 90 then c + 32 else c

-- Latin letters: every unit is a character, and texts are collated by their lengths.
abbrev pub latin : Unicode
latin = record {
  segments = λ t. map (λ c. c ∷ []) t;
  lower = λ t. map lower_unit t;
  strip_invisible = λ t. filter (λ c. not (is_space c)) t;
  compare_text = λ a b. compare (length a) (length b);
}

abbrev pub round_deps : GameDeps
round_deps = record { scaled_random = λ n. 7 % n; now = 1000; round = 1 }

abbrev pub ctx : Text → ReduceContext AnyState AnyView
ctx id = record {
  registry = catalogue latin;
  unicode = latin;
  id = id;
  secret = codes "secret";
  game_deps = round_deps;
}

abbrev pub seat : Text → Text → Player
seat id nickname = record {
  id = id;
  nickname = nickname;
  joined_during_game = false;
  spectator = false;
}

abbrev pub ada : Player
ada = seat (codes "a") (codes "Ada")

abbrev pub bob : Player
bob = seat (codes "b") (codes "Bob")

abbrev pub cleo : Player
cleo = seat (codes "c") (codes "Cleo")

abbrev pub trio : List Player
trio = ada ∷ bob ∷ cleo ∷ []

abbrev pub vote_event : Value
vote_event = obj (
    field (codes "type") (str (codes "vote"))
      (field (codes "playerId") (str (codes "a")) (field (codes "target") (str (codes "b")) end)))

abbrev pub advance_event : Value
advance_event =
    obj
      (field (codes "type") (str (codes "advance")) (field (codes "from") (str (codes "vote")) end))

abbrev pub code : Text
code = codes "ABCD"

abbrev pub host_id : Text
host_id = codes "h"

-- The rooms of one history, each made of the one before.
abbrev pub empty_room : Room AnyState
empty_room = create_room nothing code host_id

abbrev pub room_a : Room AnyState
room_a = step empty_room (join (codes "Ada") none) host (ctx (codes "a"))

abbrev pub room_b : Room AnyState
room_b = step room_a (join (codes "Bob") none) host (ctx (codes "b"))

abbrev pub full_trio : Room AnyState
full_trio = step room_b (join (codes "Cleo") none) host (ctx (codes "c"))

abbrev pub chosen_room : Room AnyState
chosen_room = step full_trio (select_game (codes "most-likely-to")) host (ctx (codes "d"))

abbrev pub playing_room : Room AnyState
playing_room = step chosen_room start_game host (ctx (codes "d"))

abbrev pub voted_room : Room AnyState
voted_room = step playing_room (game_event vote_event) host (ctx (codes "d"))

abbrev pub ended_room : Room AnyState
ended_room = step voted_room end_game host (ctx (codes "d"))

abbrev pub History : Room AnyState → Type 0
History room = Reach (catalogue latin) nothing code host_id room

pub voted_room_reached : History voted_room
unfolding klatchr.Prelude.lookup klatchr.Prelude.has klatchr.Prelude.same klatchr.Prelude.includes
    klatchr.Room.is_in_game klatchr.Room.is_host klatchr.Room.create_room klatchr.Room.require_host
    klatchr.Room.require_host_before_game klatchr.Room.resumes klatchr.Room.is_selected
    klatchr.Room.reclaim klatchr.Room.new_player klatchr.Room.seat_joiner klatchr.Room.join_room
    klatchr.Room.choose_game klatchr.Room.is_spent klatchr.Room.begin_round klatchr.Room.start
    klatchr.Room.room_reduce klatchr.Rounds.seat_from klatchr.Rounds.seat_window
    klatchr.Strings.is_space klatchr.Strings.trim_start klatchr.Strings.trim_end
    klatchr.Strings.trim klatchr.Strings.collapse_from klatchr.Strings.keep_segments
    klatchr.Strings.bounded_text klatchr.Strings.normalise_nickname klatchr.Room.Step.step
    klatchr.Games.Prompts.valid_prompts klatchr.Games.Prompts.prompt_count
voted_room_reached = stepped (game_event vote_event) host (ctx (codes "d")) refl refl (
    stepped start_game host (ctx (codes "d")) refl refl (
      stepped (select_game (codes "most-likely-to")) host (ctx (codes "d")) refl refl (
        stepped (join (codes "Cleo") none) host (ctx (codes "c")) refl refl (
          stepped (join (codes "Bob") none) host (ctx (codes "b")) refl refl
            (stepped (join (codes "Ada") none) host (ctx (codes "a")) refl refl created)))))

pub ended_room_reached : History ended_room
unfolding klatchr.Prelude.lookup klatchr.Prelude.has klatchr.Prelude.same klatchr.Prelude.includes
    klatchr.Games.strings klatchr.Room.is_in_game klatchr.Room.is_scores klatchr.Room.is_host
    klatchr.Room.create_room klatchr.Room.require_host klatchr.Room.require_host_before_game
    klatchr.Room.resumes klatchr.Room.is_selected klatchr.Room.reclaim klatchr.Room.active_game
    klatchr.Room.new_player klatchr.Room.seat_joiner klatchr.Room.join_room klatchr.Room.choose_game
    klatchr.Room.is_spent klatchr.Room.begin_round klatchr.Room.start klatchr.Room.advance_game
    klatchr.Room.play_event klatchr.Room.room_reduce klatchr.Value.is_record klatchr.Value.field_of
    klatchr.Value.read klatchr.Value.is_string klatchr.Value.is_text klatchr.Value.text_of
    klatchr.Value.is_roster_type klatchr.Rounds.seat_offset klatchr.Rounds.sits_out
    klatchr.Rounds.seat_from klatchr.Rounds.seat_window klatchr.Strings.is_space
    klatchr.Strings.trim_start klatchr.Strings.trim_end klatchr.Strings.trim
    klatchr.Strings.collapse_from klatchr.Strings.keep_segments klatchr.Strings.bounded_text
    klatchr.Strings.normalise_nickname klatchr.Room.Step.step klatchr.Games.Prompts.valid_prompts
    klatchr.Games.Prompts.prompt_count klatchr.Games.MostLikely.init
    klatchr.Games.MostLikely.is_event klatchr.Games.MostLikely.event_of
    klatchr.Games.MostLikely.dispatch klatchr.Games.MostLikely.reduce
    klatchr.Games.MostLikely.is_complete klatchr.Games.Catalogue.map_result
    klatchr.Games.Catalogue.reduce_most_likely klatchr.Games.Catalogue.most_likely_complete
    klatchr.Games.MostLikely.is_vote klatchr.Games.MostLikely.on_vote
ended_room_reached = stepped end_game host (ctx (codes "d")) refl refl voted_room_reached

pub bob_seated : find (λ q. same q.id (codes "b")) ended_room.players ≡ some bob
unfolding klatchr.Prelude.lookup klatchr.Prelude.has klatchr.Prelude.same klatchr.Prelude.includes
    klatchr.Games.strings klatchr.Room.is_in_game klatchr.Room.is_scores klatchr.Room.is_host
    klatchr.Room.create_room klatchr.Room.require_host klatchr.Room.require_host_before_game
    klatchr.Room.resumes klatchr.Room.is_selected klatchr.Room.reclaim klatchr.Room.active_game
    klatchr.Room.new_player klatchr.Room.seat_joiner klatchr.Room.join_room klatchr.Room.choose_game
    klatchr.Room.is_spent klatchr.Room.begin_round klatchr.Room.start klatchr.Room.advance_game
    klatchr.Room.play_event klatchr.Room.finish_game klatchr.Room.room_reduce
    klatchr.Value.is_record klatchr.Value.field_of klatchr.Value.read klatchr.Value.is_string
    klatchr.Value.is_text klatchr.Value.text_of klatchr.Value.is_roster_type
    klatchr.Rounds.seat_offset klatchr.Rounds.sits_out klatchr.Rounds.seat_from
    klatchr.Rounds.seat_window klatchr.Strings.is_space klatchr.Strings.trim_start
    klatchr.Strings.trim_end klatchr.Strings.trim klatchr.Strings.collapse_from
    klatchr.Strings.keep_segments klatchr.Strings.bounded_text klatchr.Strings.normalise_nickname
    klatchr.Room.Step.step klatchr.Games.Prompts.valid_prompts klatchr.Games.Prompts.prompt_count
    klatchr.Games.MostLikely.init klatchr.Games.MostLikely.is_event
    klatchr.Games.MostLikely.event_of klatchr.Games.MostLikely.dispatch
    klatchr.Games.MostLikely.reduce klatchr.Games.MostLikely.is_complete
    klatchr.Games.Catalogue.map_result klatchr.Games.Catalogue.reduce_most_likely
    klatchr.Games.Catalogue.most_likely_complete klatchr.Games.MostLikely.is_vote
    klatchr.Games.MostLikely.on_vote
bob_seated = refl

pub bob_points : lookup (codes "b") ended_room.session_scores ≡ some 1
unfolding klatchr.Prelude.lookup klatchr.Prelude.insert klatchr.Prelude.omit klatchr.Prelude.has
    klatchr.Prelude.same klatchr.Prelude.includes klatchr.Games.is_roster_event
    klatchr.Games.strings klatchr.Games.departed klatchr.Room.is_in_game klatchr.Room.is_scores
    klatchr.Room.is_host klatchr.Room.create_room klatchr.Room.token_owner klatchr.Room.require_host
    klatchr.Room.ledger_key klatchr.Room.player_id_for_token klatchr.Room.require_host_before_game
    klatchr.Room.resumes klatchr.Room.is_selected klatchr.Room.configure klatchr.Room.reclaim
    klatchr.Room.park klatchr.Room.round_scores klatchr.Room.active_game klatchr.Room.forward_roster
    klatchr.Room.new_player klatchr.Room.seat_joiner klatchr.Room.join_room klatchr.Room.drop_player
    klatchr.Room.leave_room klatchr.Room.choose_game klatchr.Room.is_spent klatchr.Room.begin_round
    klatchr.Room.start klatchr.Room.advance_game klatchr.Room.play_event klatchr.Room.finish_game
    klatchr.Room.room_reduce klatchr.Value.is_record klatchr.Value.field_of klatchr.Value.read
    klatchr.Value.is_string klatchr.Value.is_boolean klatchr.Value.is_text klatchr.Value.text_of
    klatchr.Value.is_advance klatchr.Value.is_roster_type klatchr.Game.player_value
    klatchr.Game.roster_value klatchr.Rounds.seat_offset klatchr.Rounds.sits_out
    klatchr.Rounds.seat_from klatchr.Rounds.seat_window klatchr.Rounds.fold_scores
    klatchr.Registry.assert_bounds klatchr.Registry.register klatchr.Registry.create_registry
    klatchr.Strings.is_space klatchr.Strings.trim_start klatchr.Strings.trim_end
    klatchr.Strings.trim klatchr.Strings.collapse_from klatchr.Strings.keep_segments
    klatchr.Strings.bounded_text klatchr.Strings.normalise_nickname klatchr.Room.Step.step
    klatchr.Games.Prompts.items_list klatchr.Games.Prompts.has_field
    klatchr.Games.Prompts.clean_items klatchr.Games.Prompts.some_prompts klatchr.Games.Prompts.clean
    klatchr.Games.Prompts.valid_prompts klatchr.Games.Prompts.session_bank
    klatchr.Games.Prompts.prompt_at klatchr.Games.Prompts.choose_prompt
    klatchr.Games.Prompts.prompt_count klatchr.Games.MostLikely.init
    klatchr.Games.MostLikely.is_event klatchr.Games.MostLikely.event_of
    klatchr.Games.MostLikely.on_advance klatchr.Games.MostLikely.dispatch
    klatchr.Games.MostLikely.reduce klatchr.Games.MostLikely.is_complete
    klatchr.Games.Catalogue.map_result klatchr.Games.Catalogue.reduce_guess_who
    klatchr.Games.Catalogue.view_guess_who klatchr.Games.Catalogue.scores_guess_who
    klatchr.Games.Catalogue.guess_who_complete klatchr.Games.Catalogue.reduce_most_likely
    klatchr.Games.Catalogue.view_most_likely klatchr.Games.Catalogue.scores_most_likely
    klatchr.Games.Catalogue.most_likely_complete klatchr.Games.MostLikely.is_vote
    klatchr.Games.MostLikely.on_vote klatchr.Games.MostLikely.candidates
    klatchr.Games.MostLikely.live_votes klatchr.Games.MostLikely.votes_for
    klatchr.Games.MostLikely.tally klatchr.Games.MostLikely.progress
    klatchr.Games.MostLikely.vote_view klatchr.Games.MostLikely.view_for
bob_points = refl

-- ===== src/Tests/ServerTests.antt =====
-- The theorems on the server's rooms, each at a concrete input.
use klatchr.Prelude.{
  ℕ, ◌≡◌, ◌≢◌, ◌⊎◌, Bool, refl, true, false, Option, none, some, List, [], ◌∷◌, ◌++◌, Text, Dict,
  codes, ok, fresh, after, if◌then◌else◌,
}
use klatchr.Value.{Value, undefined, is_advance}
use klatchr.Game.{player, host}
use klatchr.Room.{Room, game_event}
use klatchr.Room.Step.{step}
use klatchr.Games.MostLikely
use klatchr.Games.MostLikely.{MltState, cast_vote}
use klatchr.Games.Catalogue.{of_most_likely}
use klatchr.Server.Events.{ends}
use klatchr.Server.Session.{
  Session, create_session, play, host_action, leave_session, reap_host, drop_member,
}
use klatchr.Server.Broadcast.{frame_for, flush}
use klatchr.Server.Frames.{frame_vote_hidden}
use klatchr.Server.Authority.{IsOwn, play_as_self, outsider_powerless}
use klatchr.Server.Closing.{host_leave_closes, IsOver, farewell}
use klatchr.Tests.Samples.{latin, ctx, trio, round_deps, vote_event, playing_room}

-- The room of the samples with the host on connection 1 and a player on connection 2.
abbrev live : Session
live = record (create_session playing_room (codes "token")) {
  members = (1, host) ∷ (2, player (codes "a")) ∷ [];
}

play_as_self_example :
    ((is_advance vote_event ≡ true) × ((play live 2 vote_event (ctx (codes "d"))).room ≡ live.room))
    ⊎ ((is_advance vote_event ≡ false)
        × ((sent : Value) × ((play live 2 vote_event (ctx (codes "d"))).room
              ≡ step playing_room (game_event sent) (player (codes "a")) (ctx (codes "d")))
            × IsOwn (codes "a") vote_event sent))
unfolding create_session klatchr.Server.Session.member is_advance klatchr.Value.is_record
    klatchr.Value.is_text klatchr.Value.read klatchr.Value.field_of klatchr.Prelude.same
play_as_self_example = play_as_self live 2 vote_event (codes "a") (ctx (codes "d")) refl

outsider_powerless_example :
    (host_action live 2 ends none undefined (ctx (codes "d"))).room ≡ live.room
unfolding create_session klatchr.Server.Session.member
outsider_powerless_example =
    outsider_powerless live 2 ends none undefined (ctx (codes "d")) (λ e. cc)

abbrev vote_open : MltState
vote_open = MostLikely.init latin trio round_deps undefined

abbrev cast : Text → MltState
cast target = after vote_open (MostLikely.dispatch vote_open (cast_vote (codes "a") target))

frame_vote_hidden_example :
    frame_for
      (record playing_room { game_state = of_most_likely (cast (codes "b")) })
      (ctx (codes "d"))
      host
    ≡ frame_for
        (record playing_room {
          game_state = of_most_likely (cast (codes "c"));
          tokens = [];
          score_ledger = [];
        })
        (ctx (codes "d"))
        host
unfolding klatchr.Prelude.lookup klatchr.Prelude.has klatchr.Prelude.same klatchr.Prelude.includes
    klatchr.Room.is_in_game klatchr.Room.is_host klatchr.Room.create_room klatchr.Room.require_host
    klatchr.Room.require_host_before_game klatchr.Room.resumes klatchr.Room.is_selected
    klatchr.Room.reclaim klatchr.Room.seat_joiner klatchr.Room.join_room klatchr.Room.choose_game
    klatchr.Room.is_spent klatchr.Room.begin_round klatchr.Room.start klatchr.Room.room_reduce
    klatchr.Strings.is_space klatchr.Strings.trim_start klatchr.Strings.trim_end
    klatchr.Strings.trim klatchr.Strings.collapse_from klatchr.Strings.keep_segments
    klatchr.Strings.bounded_text klatchr.Strings.normalise_nickname klatchr.Room.Step.step
    klatchr.Games.Prompts.valid_prompts klatchr.Games.Prompts.prompt_count
    klatchr.Games.MostLikely.init klatchr.Games.MostLikely.dispatch klatchr.Games.MostLikely.is_vote
    klatchr.Games.MostLikely.on_vote klatchr.Server.Broadcast.chosen_game
frame_vote_hidden_example =
    frame_vote_hidden playing_room (ctx (codes "d")) vote_open (cast (codes "b")) (cast (codes "c"))
      (codes "a") (codes "b") (codes "c") host [] [] (λ e. cc) refl refl refl refl

host_leave_closes_example :
    let s' = flush (leave_session live 1 (ctx (codes "d"))) (ctx (codes "d")) in
    IsOver s'
    × (s'.room.closed ≡ true)
    × (s'.log ≡ live.log ++ farewell live.room.code (drop_member 1 live.members))
unfolding create_session klatchr.Server.Session.member
host_leave_closes_example = host_leave_closes live 1 (ctx (codes "d")) refl

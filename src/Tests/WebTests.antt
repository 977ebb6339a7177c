-- ===== src/Tests/WebTests.antt =====
-- The theorems on the browser's side, each at a concrete input.
use klatchr.Prelude.{
  arith, ℕ, zero, suc, length, ap, sym, ◌∙◌, ◌≡◌, ◌≤◌, ◌⊎◌, ◌++◌, refl, true, false, Bool, Option,
  none, some, List, [], ◌∷◌, map, Text, codes, keys, ltb, if◌then◌else◌,
}
use klatchr.Game.{host}
use klatchr.Server.Broadcast.{frame_for}
use klatchr.Web.Wire.{start_game, to_frame, live}
use klatchr.Web.Link.{
  Link, SocketInit, player_init, new_link, newest, sent, token_told, host_told, max_backoff_ms,
}
use klatchr.Web.Transport.{handshake}
use klatchr.Web.Transport.Life.{
  Life, begins, goes, happen, subscribes, sends, opens, receives, drops, disposes, can_happen,
  backoff_ends,
}
use klatchr.Web.Wire.{ServerMessage}
use klatchr.Web.Transport.Status.{status_notice}
use klatchr.Web.Transport.Sound.{armed, delay_of}
use klatchr.Web.Transport.Promises.{Life-armed, Life-opens, Life-stopped, messages_in}
use klatchr.Web.Transport.Delivery.{actions_in}
use klatchr.Web.Transport.Asked.{asked, Life-asked}
use klatchr.Web.Mock.{mock_frame_for, mock_frame_for-to_frame}
use klatchr.Web.Stored.{
  Storage, heed_host, told, leaves, heed_events, stored_host_session, create_player_transport,
}
use klatchr.Web.Stored.Laws.{resumes_last_token, stored_host_session-heed_host}
use klatchr.Web.PromptSet.{Pack, Edit, toggles, removes, adds, edit_all}
use klatchr.Web.PromptSet.Laws.{NoTwins, edit_all-IsQuestionSet}
use klatchr.Web.JoinLink.{code_from_location}
use klatchr.Web.JoinLink.Laws.{code_from_location-code}
use klatchr.Tests.Samples.{latin, ctx, code, playing_room}

-- A player's transport that joins, drops, and is asked for an action while it is away.
abbrev init : SocketInit
init = player_init code (codes "Ada") none

abbrev joined : Link
joined =
    happen (happen (happen (new_link init) subscribes) (opens 1))
      (receives 1 (some (ServerMessage.joined code (codes "a") (codes "secret"))))

abbrev away : Link
away = happen (happen joined (drops 1)) (sends start_game)

abbrev again : Link
again = happen away backoff_ends

abbrev over : Link
over = happen again disposes

again-Life : Life init again (1 ∷ [])
unfolding klatchr.Web.Transport.transmit klatchr.Web.Transport.close_socket
    klatchr.Web.Transport.connect klatchr.Web.Transport.ensure_started
    klatchr.Web.Transport.set_status klatchr.Web.Transport.dispatch
    klatchr.Web.Transport.dispatch_all klatchr.Web.Transport.backoff_delay
    klatchr.Web.Transport.handle_drop klatchr.Web.Transport.force_reconnect
    klatchr.Web.Transport.arm_watchdog klatchr.Web.Transport.reconnect_now
    klatchr.Web.Transport.handshake klatchr.Web.Transport.start_keepalive
    klatchr.Web.Transport.flush_pending klatchr.Web.Transport.handle_open klatchr.Web.Transport.stop
    klatchr.Web.Transport.receive klatchr.Web.Transport.handle_message klatchr.Web.Transport.send
    klatchr.Web.Transport.subscribe klatchr.Web.Transport.backoff_due klatchr.Web.Transport.dispose
    klatchr.Web.Link.init_viewer klatchr.Web.Link.init_token klatchr.Web.Link.init_resume
    klatchr.Web.Link.new_link klatchr.Web.Link.newest klatchr.Web.Link.tell
    klatchr.Web.Link.is_status klatchr.Web.Transport.Life.happen klatchr.Web.Transport.Life.elem
    klatchr.Web.Transport.Life.closed_in klatchr.Web.Transport.Life.can_happen
    klatchr.Web.Transport.Life.dropped_after
again-Life = goes backoff_ends refl (
    goes (sends start_game) refl (
      goes (drops 1) refl (
        goes (receives 1 (some (ServerMessage.joined code (codes "a") (codes "secret")))) refl
          (goes (opens 1) refl (goes subscribes refl begins)))))

Life-asked_example : actions_in again.log ++ again.pending ≡ asked again-Life
Life-asked_example = Life-asked init again (1 ∷ []) again-Life

Life-armed_example :
    ((again.is_open ≡ true)
      × (armed again.watchdog ≡ true)
      × (again.keepalive ≡ true)
      × (again.pending ≡ []))
    ⊎ ((again.awaiting_reconnect ≡ true)
        × (again.is_open ≡ false)
        × (armed again.backoff ≡ true)
        × (delay_of again.backoff ≤ max_backoff_ms))
    ⊎ ((again.is_open ≡ false)
        × (again.connect_timeout ≡ some again.generation)
        × (newest again.sockets ≡ some again.generation))
unfolding klatchr.Web.Transport.transmit klatchr.Web.Transport.close_socket
    klatchr.Web.Transport.connect klatchr.Web.Transport.ensure_started
    klatchr.Web.Transport.set_status klatchr.Web.Transport.dispatch
    klatchr.Web.Transport.dispatch_all klatchr.Web.Transport.backoff_delay
    klatchr.Web.Transport.handle_drop klatchr.Web.Transport.force_reconnect
    klatchr.Web.Transport.arm_watchdog klatchr.Web.Transport.reconnect_now
    klatchr.Web.Transport.handshake klatchr.Web.Transport.start_keepalive
    klatchr.Web.Transport.flush_pending klatchr.Web.Transport.handle_open klatchr.Web.Transport.stop
    klatchr.Web.Transport.receive klatchr.Web.Transport.handle_message klatchr.Web.Transport.send
    klatchr.Web.Transport.subscribe klatchr.Web.Transport.backoff_due klatchr.Web.Transport.dispose
    klatchr.Web.Link.init_viewer klatchr.Web.Link.init_token klatchr.Web.Link.init_resume
    klatchr.Web.Link.new_link klatchr.Web.Link.newest klatchr.Web.Link.tell
    klatchr.Web.Link.is_status klatchr.Web.Transport.Life.happen klatchr.Web.Transport.Life.elem
    klatchr.Web.Transport.Life.closed_in klatchr.Web.Transport.Life.can_happen
    klatchr.Web.Transport.Life.dropped_after
Life-armed_example = Life-armed init again (1 ∷ []) again-Life refl refl

Life-opens_example :
    ((happen again (opens again.generation)).log
      ≡ ((again.log ++ status_notice again.status live)
          ++ sent again.generation (handshake again) ∷ [])
        ++ map (sent again.generation) again.pending)
    × ((happen again (opens again.generation)).pending ≡ [])
    × ((happen again (opens again.generation)).is_open ≡ true)
unfolding klatchr.Web.Transport.transmit klatchr.Web.Transport.close_socket
    klatchr.Web.Transport.connect klatchr.Web.Transport.ensure_started
    klatchr.Web.Transport.set_status klatchr.Web.Transport.dispatch
    klatchr.Web.Transport.dispatch_all klatchr.Web.Transport.backoff_delay
    klatchr.Web.Transport.handle_drop klatchr.Web.Transport.force_reconnect
    klatchr.Web.Transport.arm_watchdog klatchr.Web.Transport.reconnect_now
    klatchr.Web.Transport.handshake klatchr.Web.Transport.start_keepalive
    klatchr.Web.Transport.flush_pending klatchr.Web.Transport.handle_open klatchr.Web.Transport.stop
    klatchr.Web.Transport.receive klatchr.Web.Transport.handle_message klatchr.Web.Transport.send
    klatchr.Web.Transport.subscribe klatchr.Web.Transport.backoff_due klatchr.Web.Transport.dispose
    klatchr.Web.Link.init_viewer klatchr.Web.Link.init_token klatchr.Web.Link.init_resume
    klatchr.Web.Link.new_link klatchr.Web.Link.newest klatchr.Web.Link.tell
    klatchr.Web.Link.is_status klatchr.Web.Transport.Life.happen klatchr.Web.Transport.Life.elem
    klatchr.Web.Transport.Life.closed_in klatchr.Web.Transport.Life.can_happen
    klatchr.Web.Transport.Life.dropped_after
Life-opens_example = Life-opens init again (1 ∷ []) again-Life refl

over-Life : Life init over (1 ∷ [])
unfolding klatchr.Web.Transport.transmit klatchr.Web.Transport.close_socket
    klatchr.Web.Transport.connect klatchr.Web.Transport.ensure_started
    klatchr.Web.Transport.set_status klatchr.Web.Transport.dispatch
    klatchr.Web.Transport.dispatch_all klatchr.Web.Transport.backoff_delay
    klatchr.Web.Transport.handle_drop klatchr.Web.Transport.force_reconnect
    klatchr.Web.Transport.arm_watchdog klatchr.Web.Transport.reconnect_now
    klatchr.Web.Transport.handshake klatchr.Web.Transport.start_keepalive
    klatchr.Web.Transport.flush_pending klatchr.Web.Transport.handle_open klatchr.Web.Transport.stop
    klatchr.Web.Transport.receive klatchr.Web.Transport.handle_message klatchr.Web.Transport.send
    klatchr.Web.Transport.subscribe klatchr.Web.Transport.backoff_due klatchr.Web.Transport.dispose
    klatchr.Web.Link.init_viewer klatchr.Web.Link.init_token klatchr.Web.Link.init_resume
    klatchr.Web.Link.new_link klatchr.Web.Link.newest klatchr.Web.Link.tell
    klatchr.Web.Link.is_status klatchr.Web.Transport.Life.happen klatchr.Web.Transport.Life.elem
    klatchr.Web.Transport.Life.closed_in klatchr.Web.Transport.Life.can_happen
    klatchr.Web.Transport.Life.dropped_after
over-Life = goes disposes refl again-Life

Life-stopped_example :
    let t = happen over (sends start_game) in
    (t.stopped ≡ true) × (t.sockets ≡ over.sockets) × (messages_in t.log ≡ messages_in over.log)
unfolding klatchr.Web.Transport.transmit klatchr.Web.Transport.close_socket
    klatchr.Web.Transport.connect klatchr.Web.Transport.ensure_started
    klatchr.Web.Transport.set_status klatchr.Web.Transport.dispatch
    klatchr.Web.Transport.dispatch_all klatchr.Web.Transport.backoff_delay
    klatchr.Web.Transport.handle_drop klatchr.Web.Transport.force_reconnect
    klatchr.Web.Transport.arm_watchdog klatchr.Web.Transport.reconnect_now
    klatchr.Web.Transport.handshake klatchr.Web.Transport.start_keepalive
    klatchr.Web.Transport.flush_pending klatchr.Web.Transport.handle_open klatchr.Web.Transport.stop
    klatchr.Web.Transport.receive klatchr.Web.Transport.handle_message klatchr.Web.Transport.send
    klatchr.Web.Transport.subscribe klatchr.Web.Transport.backoff_due klatchr.Web.Transport.dispose
    klatchr.Web.Link.init_viewer klatchr.Web.Link.init_token klatchr.Web.Link.init_resume
    klatchr.Web.Link.new_link klatchr.Web.Link.newest klatchr.Web.Link.tell
    klatchr.Web.Link.is_status klatchr.Web.Transport.Life.happen klatchr.Web.Transport.Life.elem
    klatchr.Web.Transport.Life.closed_in klatchr.Web.Transport.Life.can_happen
    klatchr.Web.Transport.Life.dropped_after
Life-stopped_example = Life-stopped init over (1 ∷ []) (sends start_game) over-Life refl refl

abbrev blank : Storage
blank = record { local = []; session = [] }

resumes_last_token_example :
    let kept = heed_events code blank (
      told (token_told (codes "old"))
      ∷ leaves true code
      ∷ told (token_told (codes "new"))
      ∷ leaves false code
      ∷ []) in
    create_player_transport code (codes "Ada") kept
    ≡ (kept, player_init code (codes "Ada") (some (codes "new")))
unfolding klatchr.Web.Stored.Laws.all_keep
resumes_last_token_example =
    resumes_last_token code (codes "Ada") (codes "new") blank
      (told (token_told (codes "old")) ∷ leaves true code ∷ []) (leaves false code ∷ []) refl

-- A pack whose second question is there already, in other letters.
abbrev pack : Pack
pack = record {
  id = codes "icebreakers";
  name = codes "Icebreakers";
  prompts = codes "Tea or coffee?" ∷ codes "Cats or dogs?" ∷ [];
}

abbrev edits : List Edit
edits = adds (codes "cats or DOGS?") ∷ toggles pack ∷ removes 0 ∷ []

edit_all-IsQuestionSet_example :
    NoTwins latin (edit_all latin edits []) × (length (edit_all latin edits []) ≤ 50)
unfolding klatchr.Web.PromptSet.has_item klatchr.Web.PromptSet.norm klatchr.Web.PromptSet.Laws.rows
    klatchr.Prelude.same klatchr.Strings.trim klatchr.Strings.trim_start klatchr.Strings.trim_end
    klatchr.Strings.is_space
edit_all-IsQuestionSet_example =
    edit_all-IsQuestionSet latin edits [] (tt, ((refl, (refl, tt)), (tt, tt))) (tt, omega arith)

code_from_location-code_example : code_from_location (λ t. t) (47 ∷ code) none ≡ some code
unfolding klatchr.RoomCode.is_room_code klatchr.RoomCode.includes_char
code_from_location-code_example = code_from_location-code (λ t. t) code none refl refl

mock_frame_for-to_frame_example :
    mock_frame_for playing_room (ctx (codes "d")) host
    ≡ to_frame (frame_for playing_room (ctx (codes "d")) host) host
unfolding klatchr.Prelude.lookup klatchr.Prelude.insert klatchr.Prelude.omit klatchr.Prelude.has
    klatchr.Prelude.same klatchr.Prelude.includes klatchr.Games.is_roster_event
    klatchr.Games.strings klatchr.Games.departed klatchr.Room.is_in_game klatchr.Room.is_scores
    klatchr.Room.is_host klatchr.Room.create_room klatchr.Room.token_owner klatchr.Room.require_host
    klatchr.Room.ledger_key klatchr.Room.player_id_for_token klatchr.Room.require_host_before_game
    klatchr.Room.resumes klatchr.Room.is_selected klatchr.Room.configure klatchr.Room.reclaim
    klatchr.Room.park klatchr.Room.round_scores klatchr.Room.active_game klatchr.Room.forward_roster
    klatchr.Room.new_player klatchr.Room.seat_joiner klatchr.Room.join_room klatchr.Room.drop_player
    klatchr.Room.leave_room klatchr.Room.choose_game klatchr.Room.is_spent klatchr.Room.begin_round
    klatchr.Room.start klatchr.Room.advance_game klatchr.Room.play_event klatchr.Room.finish_game
    klatchr.Room.room_reduce klatchr.Value.is_record klatchr.Value.field_of klatchr.Value.read
    klatchr.Value.is_string klatchr.Value.is_boolean klatchr.Value.is_text klatchr.Value.text_of
    klatchr.Value.is_advance klatchr.Value.is_roster_type klatchr.Game.player_value
    klatchr.Game.roster_value klatchr.Rounds.seat_offset klatchr.Rounds.sits_out
    klatchr.Rounds.seat_from klatchr.Rounds.seat_window klatchr.Rounds.fold_scores
    klatchr.Registry.assert_bounds klatchr.Registry.register klatchr.Registry.create_registry
    klatchr.Strings.is_space klatchr.Strings.trim_start klatchr.Strings.trim_end
    klatchr.Strings.trim klatchr.Strings.collapse_from klatchr.Strings.keep_segments
    klatchr.Strings.bounded_text klatchr.Strings.normalise_nickname klatchr.Room.Step.step
    klatchr.Games.Prompts.items_list klatchr.Games.Prompts.has_field
    klatchr.Games.Prompts.clean_items klatchr.Games.Prompts.some_prompts klatchr.Games.Prompts.clean
    klatchr.Games.Prompts.valid_prompts klatchr.Games.Prompts.session_bank
    klatchr.Games.Prompts.prompt_at klatchr.Games.Prompts.choose_prompt
    klatchr.Games.Prompts.prompt_count klatchr.Games.MostLikely.init
    klatchr.Games.MostLikely.is_event klatchr.Games.MostLikely.event_of
    klatchr.Games.MostLikely.on_advance klatchr.Games.MostLikely.dispatch
    klatchr.Games.MostLikely.reduce klatchr.Games.MostLikely.is_complete
    klatchr.Games.Catalogue.map_result klatchr.Games.Catalogue.reduce_guess_who
    klatchr.Games.Catalogue.view_guess_who klatchr.Games.Catalogue.scores_guess_who
    klatchr.Games.Catalogue.guess_who_complete klatchr.Games.Catalogue.reduce_most_likely
    klatchr.Games.Catalogue.view_most_likely klatchr.Games.Catalogue.scores_most_likely
    klatchr.Games.Catalogue.most_likely_complete klatchr.Games.MostLikely.is_vote
    klatchr.Games.MostLikely.on_vote klatchr.Games.MostLikely.candidates
    klatchr.Games.MostLikely.live_votes klatchr.Games.MostLikely.votes_for
    klatchr.Games.MostLikely.tally klatchr.Games.MostLikely.progress
    klatchr.Games.MostLikely.vote_view klatchr.Games.MostLikely.view_for
mock_frame_for-to_frame_example = mock_frame_for-to_frame playing_room (ctx (codes "d")) host refl

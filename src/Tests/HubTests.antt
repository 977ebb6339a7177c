-- ===== src/Tests/HubTests.antt =====
-- The theorems on a room's connections, the hub and the sockets, each at a concrete input.
use klatchr.Prelude.{
  ℕ, ◌+◌, ◌*◌, ◌≡◌, ◌≤◌, refl, true, false, Bool, Option, none, some, List, [], ◌∷◌, Text, Dict,
  codes, keys, lookup, has, length, Distinct, ◌==◌, leb, ltb, if◌then◌else◌,
}
use klatchr.Game.{host}
use klatchr.Room.Reach.{Reach}
use klatchr.Games.Catalogue.{nothing, catalogue}
use klatchr.Server.Session.{Session, create_session, add_host, apply, report}
use klatchr.Server.History.{Live, opens, called, joins, drops, run}
use klatchr.Server.History.Refines.{Live-Reach}
use klatchr.Server.History.Held.{Live-IsAttached}
use klatchr.Server.Attached.{IsAttached}
use klatchr.Server.Messages.{Parsed, parsed, open_room}
use klatchr.Server.Hub.{Sources, default_limits, new_hub, count_or}
use klatchr.Server.Hub.Owners.{opened_from}
use klatchr.Server.Hub.Always.{Entry, goes, serve, owners, nobody, serve-new_hub}
use klatchr.Server.Sockets.{Verdict, passes, default_rate, new_gate, on_message, terminated, sweep}
use klatchr.Server.Sockets.Flow.{passes_in, total, gate_after, at_once, flood, passes-burst}
use klatchr.Server.Sockets.Addresses
use klatchr.Server.Sockets.Addresses.{
  Doors, Traffic, starts, departs, arrive, depart, held, Traffic-counts, answers, others,
  terminated-next,
}
use klatchr.Tests.Samples.{latin, ctx, code, host_id, empty_room}

-- A host on connection 1; a player joins on connection 2, and drops.
abbrev opened : Session
opened = add_host (create_session empty_room (codes "token")) 1

abbrev seated : Session
seated = run opened (joins 2 (codes "Ada") none) (ctx (codes "a"))

abbrev lost : Session
lost = run seated (drops 2) (ctx (codes "b"))

lost-Live : Live (catalogue latin) code host_id lost
unfolding run klatchr.Server.Session.join_session klatchr.Server.Session.disconnect
    klatchr.Server.Session.add_host klatchr.Server.Session.admit_host create_session
    klatchr.Server.Session.token_player klatchr.Server.Session.apply klatchr.Server.Session.commit
    klatchr.Server.Session.schedule_broadcast klatchr.Server.Session.emit
    klatchr.Server.Session.admit klatchr.Server.Session.take_seat klatchr.Server.Session.is_no_op
    klatchr.Prelude.lookup klatchr.Prelude.insert klatchr.Prelude.omit klatchr.Prelude.has
    klatchr.Prelude.same klatchr.Prelude.includes klatchr.Games.is_roster_event
    klatchr.Games.strings klatchr.Games.departed klatchr.Room.is_in_game klatchr.Room.is_scores
    klatchr.Room.is_host klatchr.Room.create_room klatchr.Room.token_owner klatchr.Room.require_host
    klatchr.Room.ledger_key klatchr.Room.player_id_for_token klatchr.Room.require_host_before_game
    klatchr.Room.resumes klatchr.Room.is_selected klatchr.Room.configure klatchr.Room.reclaim
    klatchr.Room.park klatchr.Room.round_scores klatchr.Room.active_game klatchr.Room.forward_roster
    klatchr.Room.new_player klatchr.Room.seat_joiner klatchr.Room.join_room klatchr.Room.drop_player
    klatchr.Room.leave_room klatchr.Room.choose_game klatchr.Room.is_spent klatchr.Room.begin_round
    klatchr.Room.start klatchr.Room.advance_game klatchr.Room.play_event klatchr.Room.finish_game
    klatchr.Room.room_reduce klatchr.Value.is_record klatchr.Value.field_of klatchr.Value.read
    klatchr.Value.is_string klatchr.Value.is_boolean klatchr.Value.is_text klatchr.Value.text_of
    klatchr.Value.is_advance klatchr.Value.is_roster_type klatchr.Game.player_value
    klatchr.Game.roster_value klatchr.Rounds.seat_offset klatchr.Rounds.sits_out
    klatchr.Rounds.seat_from klatchr.Rounds.seat_window klatchr.Rounds.fold_scores
    klatchr.Registry.assert_bounds klatchr.Registry.register klatchr.Registry.create_registry
    klatchr.Strings.is_space klatchr.Strings.trim_start klatchr.Strings.trim_end
    klatchr.Strings.trim klatchr.Strings.collapse_from klatchr.Strings.keep_segments
    klatchr.Strings.bounded_text klatchr.Strings.normalise_nickname klatchr.Room.Step.step
    klatchr.Games.Prompts.items_list klatchr.Games.Prompts.has_field
    klatchr.Games.Prompts.clean_items klatchr.Games.Prompts.some_prompts klatchr.Games.Prompts.clean
    klatchr.Games.Prompts.valid_prompts klatchr.Games.Prompts.session_bank
    klatchr.Games.Prompts.prompt_at klatchr.Games.Prompts.choose_prompt
    klatchr.Games.Prompts.prompt_count klatchr.Games.MostLikely.init
    klatchr.Games.MostLikely.is_event klatchr.Games.MostLikely.event_of
    klatchr.Games.MostLikely.on_advance klatchr.Games.MostLikely.dispatch
    klatchr.Games.MostLikely.reduce klatchr.Games.MostLikely.is_complete
    klatchr.Games.Catalogue.map_result klatchr.Games.Catalogue.reduce_guess_who
    klatchr.Games.Catalogue.view_guess_who klatchr.Games.Catalogue.scores_guess_who
    klatchr.Games.Catalogue.guess_who_complete klatchr.Games.Catalogue.reduce_most_likely
    klatchr.Games.Catalogue.view_most_likely klatchr.Games.Catalogue.scores_most_likely
    klatchr.Games.Catalogue.most_likely_complete klatchr.Games.MostLikely.is_vote
    klatchr.Games.MostLikely.on_vote klatchr.Games.MostLikely.candidates
    klatchr.Games.MostLikely.live_votes klatchr.Games.MostLikely.votes_for
    klatchr.Games.MostLikely.tally klatchr.Games.MostLikely.progress
    klatchr.Games.MostLikely.vote_view klatchr.Games.MostLikely.view_for
lost-Live =
    called (drops 2) (ctx (codes "b")) refl refl
      (called (joins 2 (codes "Ada") none) (ctx (codes "a")) refl refl (opens (codes "token") 1))

Live-Reach_example : Reach (catalogue latin) nothing code host_id lost.room
Live-Reach_example = Live-Reach (catalogue latin) code host_id lost-Live

Live-IsAttached_example : IsAttached lost
Live-IsAttached_example = Live-IsAttached (catalogue latin) code host_id lost-Live

-- Every text opens a room, and the letters of a code are drawn in turn.
abbrev opening : Text → Parsed
opening raw = parsed (open_room raw)

abbrev sources : Sources
sources = record { ctx = ctx (codes "h"); draw = λ n. n; attempts = 3 }

abbrev visits : List (Entry × Sources)
visits =
    (Entry.arrives 1 (some (codes "10.0.0.1")) (codes "Ada"), sources)
    ∷ (Entry.arrives 2 (some (codes "10.0.0.1")) (codes "Bob"), sources)
    ∷ (goes 2, sources)
    ∷ []

serve-new_hub_example :
    let hub = serve opening default_limits new_hub visits in
    let owner = owners opening default_limits new_hub nobody visits in
    (count_or 0 (lookup (codes "10.0.0.1") hub.rooms_per_address)
      ≡ opened_from (codes "10.0.0.1") owner (keys hub.rooms))
    × (opened_from (codes "10.0.0.1") owner (keys hub.rooms) ≤ default_limits.max_rooms_per_address)
    × (length hub.rooms ≤ default_limits.max_rooms)
    × ((code : Text) → has code hub.opened_by ≡ true → has code hub.rooms ≡ true)
    × Distinct (keys hub.rooms)
serve-new_hub_example = serve-new_hub opening default_limits visits (codes "10.0.0.1")

passes-burst_example :
    1000 * passes_in default_rate (new_gate default_rate) (0 ∷ 10 ∷ 50 ∷ [])
    ≤ 1000 * default_rate.burst + total (0 ∷ 10 ∷ 50 ∷ []) * default_rate.per_second
passes-burst_example = passes-burst default_rate (0 ∷ 10 ∷ 50 ∷ [])

abbrev office : Text
office = codes "10.0.0.1"

-- Three sockets of one address under a limit of two; then one closes.
abbrev crowd : Doors
crowd = arrive 2 office (arrive 2 office (arrive 2 office (record { sockets = []; per_ip = [] })))

crowd-Traffic : Traffic 2 (depart office crowd)
unfolding arrive klatchr.Server.Sockets.connection klatchr.Prelude.lookup klatchr.Prelude.insert
    klatchr.Prelude.includes klatchr.Prelude.same count_or
crowd-Traffic =
    departs office refl
      (Traffic.arrives office (Traffic.arrives office (Traffic.arrives office starts)))

Traffic-counts_example :
    (count_or 0 (lookup office (depart office crowd).per_ip)
      ≡ held office (depart office crowd).sockets)
    × (held office (depart office crowd).sockets ≤ 2)
Traffic-counts_example = Traffic-counts 2 (depart office crowd) office crowd-Traffic

-- Two sockets that answered the last ping, and a pong of the second after this one.
terminated-next_example :
    terminated (answers (2 ∷ []) (sweep ((1, true) ∷ (2, true) ∷ [])))
    ≡ others (2 ∷ []) (klatchr.Server.Sockets.Addresses.kept ((1, true) ∷ (2, true) ∷ []))
terminated-next_example = terminated-next ((1, true) ∷ (2, true) ∷ []) (2 ∷ [])

flood_example :
    (on_message default_rate (gate_after default_rate (new_gate default_rate) (at_once 7)) 0).1 ≡ (
      if ltb 7 default_rate.burst
      then passes
      else Verdict.dropped (7 == default_rate.burst) (leb (default_rate.burst + 200) 8))
flood_example = flood default_rate 7

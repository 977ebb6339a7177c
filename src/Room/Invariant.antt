-- ===== src/Room/Invariant.antt =====
-- What every event keeps true of a room: its size, its ids and tokens, whose points are in the
-- tally, and how far a session goes.
pub mod Seats
pub mod Rounds
pub mod Kept
use mathlib.Core.List.{map-append}
use klatchr.Prelude.{
  ℕ, ◌+◌, ◌≤◌, ◌<◌, ◌≡◌, refl, sym, ap, ◌∙◌, subst, true, false, not, Option, some, List, [], ◌∷◌,
  ◌++◌, map, Text, Dict, keys, lookup, insert, has, same, same_iff, includes, Distinct,
  Distinct-snoc, Distinct-without, includes-append, includes-last, includes-without, without,
  keys-insert, keys-omit, has-insert, has-omit, length, length-append, length-filter-le, filter,
  arith, Next, kept, fresh, next_of, Option-cases, inl, inr, Bool-cases,
}
use klatchr.Value.{Value}
use klatchr.Game.{Game, Player, Viewer, Score, player_joined, max_players_bound}
use klatchr.Registry.{Registry, get_game}
use klatchr.Rounds.{fold_scores}
use klatchr.Rounds.Tally.{has-fold_scores}
use klatchr.Rounds.Seats.{ids-seat_window, length-seat_window}
use klatchr.Room.{
  Room, RoomEvent, ReduceContext, lobby, in_game, scores_shown, join, leave, select_game,
  configure_game, start_game, game_event, end_game, room_reduce, reclaim, ledger_key, new_player,
  seat_joiner, drop_player, begin_round, advance_game, is_spent, is_in_game, round_scores,
  forward_roster, ids,
}
use klatchr.Room.Step.{
  step, join_cases, leave_cases, choose_cases, configure_cases, start_cases, play_cases,
  finish_cases,
}

-- A round is being played: its game is chosen and registered, and the round is counted.
pub record Plays {S V : Type 0} (r : Registry S V) (choice : Option Text) (round : ℕ) : Type 0 where
  pub id : Text
  pub game : Game S V
  pub selected : choice ≡ some id
  pub registered : get_game r id ≡ some game
  pub counted : 1 ≤ round

pub record Inv {S V : Type 0} (r : Registry S V) (room : Room S) : Type 0 where
  pub bounded : length room.players ≤ max_players_bound
  pub distinct : Distinct (ids room.players)
  -- Every player has a token and nobody else has, in the same order.
  pub tokens_match : keys room.tokens ≡ ids room.players
  -- Only seated players are in the tally.
  pub scores_seated :
      (k : Text) → has k room.session_scores ≡ true → includes (ids room.players) k ≡ true
  pub playing : is_in_game room.phase ≡ true → Plays r room.selected_game_id room.round
  -- No session runs past the questions of its set.
  pub within_set :
      (id : Text) (game : Game S V) (count : Value → ℕ)
      → room.selected_game_id ≡ some id
      → get_game r id ≡ some game
      → game.round_count ≡ some count
      → room.round ≤ count room.game_config

-- The ids are fresh: the next one is nobody's.
abbrev pub IsFresh : {S V : Type 0} → Room S → ReduceContext S V → Type 0
IsFresh room ctx = includes (ids room.players) ctx.id ≡ false

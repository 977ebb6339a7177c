-- ===== src/Room/Step.antt =====
-- One event of a room's life, as the server applies it: a rejection leaves the room as it was. The
-- rules here split an operation into its outcomes.
use klatchr.Prelude.{
  after, ◌<◌, ◌≡◌, true, false, Option, some, [], Text, ok, Result-cases, Option-cases, Bool-cases,
  inl, inr, if◌then◌else◌, Next, next_of, length, arith,
}
use klatchr.Value.{Value, undefined}
use klatchr.Value.Equality.{same_json}
use klatchr.Strings.{normalise_nickname}
use klatchr.Game.{Game, Viewer, player, host, max_players_bound}
use klatchr.Registry.{get_game}
use klatchr.Rounds.{fold_scores}
use klatchr.Room.{
  Room, RoomEvent, ReduceContext, lobby, scores_shown, room_reduce, join_room, leave_room,
  choose_game, configure, start, play_event, finish_game, seat_joiner, drop_player, begin_round,
  advance_game, active_game, is_spent, is_selected, is_in_game, round_scores, require_host,
  require_host_before_game,
}

module _ {S : Type 0} where
  pub configure_cases {ℓ} :
      (P : Room S → Type ℓ) (room : Room S) (config : Value) (actor : Viewer)
      → P room
      → (is_in_game room.phase ≡ false
          → P (record room { game_config = config; round = 0; session_scores = [] }))
      → P (after room (configure room config actor))
  unfolding configure require_host_before_game
  configure_cases P room config actor same_room configured =
      elim (Option-cases (require_host actor)) [
        | inr (e, refused) ↦ rw (refused, after) same_room
        | inl allowed ↦
            rw (allowed, after)
              (elim (Bool-cases (is_in_game room.phase)) [
                | inl on ↦ rw (on, after) same_room
                | inr off ↦
                    rw (off, after)
                      (elim (Bool-cases (same_json config room.game_config)) [
                        | inl unchanged ↦ rw (unchanged, after) same_room
                        | inr changed ↦ rw (changed, after) (configured off)
                      ])
              ])
      ]

module _ {S V : Type 0} where
  unfoldable pub step : Room S → RoomEvent → Viewer → ReduceContext S V → Room S
  step room event actor ctx = after room (room_reduce room event actor ctx)

  pub join_cases {ℓ} :
      (P : Room S → Type ℓ) (room : Room S) (nickname : Text) (token : Option Text)
      (ctx : ReduceContext S V)
      → P room
      → ((display : Text)
          → length room.players < max_players_bound
          → P (seat_joiner room display ctx))
      → P (after room (join_room room nickname token ctx))
  unfolding join_room
  join_cases P room nickname token ctx same_room seated =
      elim (Result-cases (normalise_nickname ctx.unicode nickname)) [
        | inr (e, none_left) ↦ rw (none_left, after) same_room
        | inl (name, named) ↦ rw (named, after) (ground (arith, seated name.display))
      ]

  pub leave_cases {ℓ} :
      (P : Room S → Type ℓ) (room : Room S) (actor : Viewer) (ctx : ReduceContext S V)
      → P (record room { closed = true })
      → ((id : Text) → P (drop_player room id ctx))
      → P (after room (leave_room room actor ctx))
  unfolding leave_room
  leave_cases P room host ctx closed dropped = closed
  leave_cases P room (player id) ctx closed dropped = dropped id

  pub choose_cases {ℓ} :
      (P : Room S → Type ℓ) (room : Room S) (id : Text) (actor : Viewer) (ctx : ReduceContext S V)
      → P room
      → ((config : Value)
          → P (record room {
            phase = lobby;
            selected_game_id = some id;
            round = 0;
            session_scores = [];
            score_ledger = [];
            game_config = config;
          }))
      → P (after room (choose_game room id actor ctx))
  unfolding choose_game
  choose_cases P room id actor ctx same_room chosen =
      ground (arith, chosen (if is_selected room id then room.game_config else undefined))

  pub start_cases {ℓ} :
      (P : Room S → Type ℓ) (room : Room S) (actor : Viewer) (ctx : ReduceContext S V)
      → P room
      → ((id : Text) (game : Game S V)
          → room.selected_game_id ≡ some id
          → get_game ctx.registry id ≡ some game
          → is_spent game room ≡ false
          → P (begin_round game room ctx))
      → P (after room (start room actor ctx))
  unfolding start
  start_cases P room actor ctx same_room began =
      elim (Option-cases (require_host_before_game room actor)) [
        | inr (e, refused) ↦ rw (refused, after) same_room
        | inl allowed ↦
            rw (allowed, after)
              (elim (Option-cases room.selected_game_id) [
                | inl unselected ↦ rw (unselected, after) same_room
                | inr (id, selected) ↦
                    rw (selected, after)
                      (elim (Option-cases (get_game ctx.registry id)) [
                        | inl unregistered ↦ rw (unregistered, after) same_room
                        | inr (game, registered) ↦
                            rw (registered, after)
                              (ground (arith, began id game selected registered))
                      ])
              ])
      ]

  pub play_cases {ℓ} :
      (P : Room S → Type ℓ) (room : Room S) (event : Value) (ctx : ReduceContext S V)
      → P room
      → ((game : Game S V) (next : Next S)
          → active_game room ctx ≡ some game
          → is_in_game room.phase ≡ true
          → game.reduce room.game_state event ≡ ok next
          → P (next_of room (advance_game room game next)))
      → P (after room (play_event room event ctx))
  unfolding play_event
  play_cases P room event ctx same_room played = elim (Option-cases (active_game room ctx)) [
    | inl inactive ↦ rw inactive (ground arith)
    | inr (game, found) ↦ rw found (elim (Result-cases (game.reduce room.game_state event)) [
      | inr (e, rejected) ↦ rw rejected (ground arith)
      | inl (next, reduced) ↦ rw reduced (elim (Bool-cases (is_in_game room.phase)) [
        | inl on ↦ rw on (ground (arith, played game next found on reduced))
        | inr off ↦ rw off (ground arith)
      ])
    ])
  ]

  pub finish_cases {ℓ} :
      (P : Room S → Type ℓ) (room : Room S) (actor : Viewer) (ctx : ReduceContext S V)
      → P room
      → ((game : Game S V)
          → active_game room ctx ≡ some game
          → is_in_game room.phase ≡ true
          → P (record room {
            phase = scores_shown;
            session_scores = fold_scores room.session_scores (round_scores room game);
          }))
      → P (after room (finish_game room actor ctx))
  unfolding finish_game
  finish_cases P room actor ctx same_room finished = elim (Option-cases (require_host actor)) [
    | inr (e, refused) ↦ rw (refused, after) same_room
    | inl allowed ↦
        rw (allowed, after)
          (elim (Bool-cases (is_in_game room.phase)) [
            | inr off ↦ rw (off, after) same_room
            | inl on ↦
                rw (on, after)
                  (elim (Option-cases (active_game room ctx)) [
                    | inl inactive ↦ rw (inactive, after) same_room
                    | inr (game, found) ↦ rw (found, after) (finished game found on)
                  ])
          ])
  ]

-- ===== src/Room/Authority.antt =====
-- Who may do what to a room, and when.
use klatchr.Prelude.{
  ◌≡◌, refl, Bool, true, false, Text, codes, ok, err, kept, arith, same, same_iff, if◌then◌else◌,
}
use klatchr.Value.{Value, is_advance, is_roster_type, is_text, read}
use klatchr.Game.{Viewer, player, host}
use klatchr.Registry.{has_game}
use klatchr.Room.{
  Room, RoomEvent, RoomError, ReduceContext, in_game, scores_shown, join, leave, select_game,
  configure_game, start_game, game_event, end_game, room_reduce, choose_game, configure, start,
  play_event, finish_game, require_host, require_host_before_game, is_host, is_in_game, is_scores,
  plain, not_host, wrong_phase, game_not_registered, forbidden_event, game_event_outside_game,
}

-- The events that only the host may send, and those of them that are barred while a game runs.
unfoldable pub is_host_only : RoomEvent → Bool
is_host_only (select_game id) = true
is_host_only (configure_game config) = true
is_host_only start_game = true
is_host_only end_game = true
is_host_only e = false

unfoldable pub is_pre_game : RoomEvent → Bool
is_pre_game (select_game id) = true
is_pre_game (configure_game config) = true
is_pre_game start_game = true
is_pre_game e = false

is_text_unique :
    (v : Value) (a b : Text) → is_text v a ≡ true → same a b ≡ false → is_text v b ≡ false
unfolding is_text
is_text_unique (Value.str t) a b h d = ground (arith, same_iff t a, same_iff t b, same_iff a b)
is_text_unique Value.undefined a b h d = refl
is_text_unique v a b h d = refl

advance_not_roster : (event : Value) → is_advance event ≡ true → is_roster_type event ≡ false
unfolding is_advance is_roster_type same
advance_not_roster event h = ground (
  arith,
  is_text_unique (read event (codes "type")) (codes "advance") (codes "playerJoined"),
  is_text_unique (read event (codes "type")) (codes "advance") (codes "playerLeft"),
)

module _ {S V : Type 0} (room : Room S) (ctx : ReduceContext S V) where
  -- Whatever the room's state, a player who tries to choose, configure, start or end a game is
  -- refused as not being the host.
  pub host_only_refused :
      (event : RoomEvent) (id : Text)
      → is_host_only event ≡ true
      → room_reduce room event (player id) ctx ≡ err (plain not_host)
  unfolding is_host_only room_reduce choose_game configure start finish_game require_host
      require_host_before_game is_host
  host_only_refused (select_game g) id h = refl
  host_only_refused (configure_game config) id h = refl
  host_only_refused start_game id h = refl
  host_only_refused end_game id h = refl
  host_only_refused (join nickname token) id h = cc
  host_only_refused leave id h = cc
  host_only_refused (game_event e) id h = cc

  -- While a game runs nobody can choose, configure or start one: the room refuses every such
  -- event, from the host too.
  pub pre_game_refused :
      (event : RoomEvent) (actor : Viewer)
      → room.phase ≡ in_game
      → is_pre_game event ≡ true
      → (e : RoomError) × (room_reduce room event actor ctx ≡ err e)
  unfolding is_pre_game room_reduce choose_game configure start require_host
      require_host_before_game is_host is_in_game
  pre_game_refused (select_game g) (player id) p h = (plain not_host, refl)
  pre_game_refused (select_game g) host p h =
      (plain (if has_game ctx.registry g then wrong_phase else game_not_registered), ground arith)
  pre_game_refused (configure_game config) (player id) p h = (plain not_host, refl)
  pre_game_refused (configure_game config) host p h = (plain wrong_phase, ground arith)
  pre_game_refused start_game (player id) p h = (plain not_host, refl)
  pre_game_refused start_game host p h = (plain wrong_phase, ground arith)
  pre_game_refused (join nickname token) actor p h = absurd (cc)
  pre_game_refused leave actor p h = absurd (cc)
  pre_game_refused (game_event e) actor p h = absurd (cc)
  pre_game_refused end_game actor p h = absurd (cc)

  -- A roster fact that a client forges never reaches a game: it is refused in every phase.
  pub forged_roster_refused :
      (event : Value) (actor : Viewer)
      → is_roster_type event ≡ true
      → room_reduce room (game_event event) actor ctx
        ≡ err (plain (if is_in_game room.phase then forbidden_event else game_event_outside_game))
  unfolding room_reduce play_event
  forged_roster_refused event actor h = ground (arith, advance_not_roster event)

  -- While the scores are shown an advance, such as a second copy of the round's final one,
  -- changes nothing and is no error.
  pub late_advance_kept :
      (event : Value) (actor : Viewer)
      → room.phase ≡ scores_shown
      → is_advance event ≡ true
      → room_reduce room (game_event event) actor ctx ≡ ok kept
  unfolding room_reduce play_event is_scores
  late_advance_kept event actor p h = ground arith

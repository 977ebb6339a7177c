-- ===== src/Server/Events.antt =====
-- apps/server/src/roomEvents.ts and usage.ts: from a client's action to an event of the room, and the
-- lines that are logged.
use klatchr.Prelude.{
  ℕ, suc, ◌≡◌, true, Option, none, some, Text, codes, same, same_refl, same_iff, ◌≢◌, length, arith,
  leb, if◌then◌else◌,
}
use klatchr.Value.{
  Value, Items, Fields, undefined, str, arr, obj, nil, cons, end, field, read, field_of, is_record,
}
use klatchr.Room.{Room, RoomEvent, select_game, configure_game, start_game, end_game}
use klatchr.Games.GuessWho.Cards.{decimal}

pub data HostAction : Type 0 where
  selects configures starts ends : HostAction

unfoldable pub host_event : HostAction → Option Text → Value → Option RoomEvent
host_event selects none config = none
host_event selects (some id) config = some (select_game id)
host_event configures game_id config = some (configure_game config)
host_event starts game_id config = some start_game
host_event ends game_id config = some end_game

-- `{ ...fields, key: value }`: a key that is there keeps its place.
unfoldable pub set_field : Text → Value → Fields → Fields
set_field k v end = field k v end
set_field k v (field j w fs) = if same j k then field j v fs else field j w (set_field k v fs)

-- A spread array: its items under their indices.
unfoldable pub index_fields : ℕ → Items → Fields
index_fields i nil = end
index_fields i (cons v xs) = field (decimal i) v (index_fields (suc i) xs)

unfoldable pub stamp_player_id : Value → Text → Value
stamp_player_id (obj fs) id = obj (set_field (codes "playerId") (str id) fs)
stamp_player_id (arr xs) id = obj (set_field (codes "playerId") (str id) (index_fields 0 xs))
stamp_player_id event id = event

pub data UsageLine : Type 0 where
  room_open player_join : UsageLine
  round_start : (game : Text) (round players : ℕ) → UsageLine

unfoldable pub round_started : {S : Type 0} → Room S → Room S → Option UsageLine
round_started before after =
    if leb after.round before.round then none else elim after.selected_game_id [
      | none ↦ none
      | some game ↦ some (round_start game after.round (length after.players))
    ]

read-set_field : (k : Text) (v : Value) (fs : Fields) → field_of k (set_field k v fs) ≡ v
unfolding field_of set_field
read-set_field k v end = ground (arith, same_refl k)
read-set_field k v (field j w fs) = ground (arith, read-set_field k v fs)

-- Whatever playerId a client writes into an event, the stamped event carries the one given.
pub read-stamp_player_id :
    (event : Value) (id : Text)
    → is_record event ≡ true
    → read (stamp_player_id event id) (codes "playerId") ≡ str id
unfolding read is_record stamp_player_id
read-stamp_player_id (obj fs) id h = read-set_field (codes "playerId") (str id) fs
read-stamp_player_id (arr xs) id h = read-set_field (codes "playerId") (str id) (index_fields 0 xs)
read-stamp_player_id undefined id h = absurd (cc)
read-stamp_player_id Value.null id h = absurd (cc)
read-stamp_player_id (Value.bool b) id h = absurd (cc)
read-stamp_player_id (Value.num n) id h = absurd (cc)
read-stamp_player_id (str t) id h = absurd (cc)

field_of-set_field :
    (k j : Text) (v : Value) (fs : Fields) → k ≢ j → field_of j (set_field k v fs) ≡ field_of j fs
unfolding field_of set_field
field_of-set_field k j v end other = ground (arith, same_iff k j)
field_of-set_field k j v (field i w fs) other =
    ground (arith, field_of-set_field k j v fs other, same_iff k j, same_iff i k, same_iff i j)

-- A stamp leaves every other property of an object as it was.
pub read-stamped :
    (fs : Fields) (id k : Text)
    → codes "playerId" ≢ k
    → read (stamp_player_id (obj fs) id) k ≡ field_of k fs
unfolding read stamp_player_id
read-stamped fs id k other = field_of-set_field (codes "playerId") k (str id) fs other

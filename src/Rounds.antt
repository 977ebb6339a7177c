-- ===== src/Rounds.antt =====
-- packages/core/src/rounds.ts: the seats of a round, and the session's tally. `omit` is the
-- dictionary's.
pub mod Seats
pub mod Tally
use klatchr.Prelude.{
  ℕ, suc, ◌+◌, ◌-◌, ◌*◌, ◌%◌, Bool, true, false, List, [], ◌∷◌, Option, none, some, Text, Dict,
  lookup, insert, length, ltb, leb, if◌then◌else◌,
}
use klatchr.Game.{Player, Score}

-- The first seat of the round's window. `round` is at least 1.
unfoldable pub seat_offset : ℕ → ℕ → ℕ → ℕ
seat_offset n max_players round = if ltb max_players n then ((round - 1) * max_players) % n else 0

-- Whether the player at index `i` of `n` sits out. The offset is below `n`, so `-` does not stop.
unfoldable pub sits_out : ℕ → ℕ → ℕ → ℕ → Bool
sits_out n max_players offset i = leb max_players ((i + n - offset) % n)

unfoldable pub seat_from : ℕ → ℕ → ℕ → ℕ → List Player → List Player
seat_from n max_players offset i [] = []
seat_from n max_players offset i (p ∷ ps) =
    record p { spectator = sits_out n max_players offset i; joined_during_game = false }
    ∷ seat_from n max_players offset (suc i) ps

unfoldable pub seat_window : List Player → ℕ → ℕ → List Player
seat_window players max_players round =
    seat_from (length players) max_players (seat_offset (length players) max_players round) 0
      players

abbrev pub points_or_zero : Option ℕ → ℕ
points_or_zero none = 0
points_or_zero (some n) = n

unfoldable pub fold_scores : Dict ℕ → List Score → Dict ℕ
fold_scores base [] = base
fold_scores base (s ∷ scores) =
    fold_scores (insert s.player_id (points_or_zero (lookup s.player_id base) + s.points) base)
      scores

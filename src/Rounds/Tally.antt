-- ===== src/Rounds/Tally.antt =====
-- The session's tally after a round (`foldScores`).
use klatchr.Prelude.{
  ℕ, ◌+◌, ◌≡◌, refl, ◌||◌, List, [], ◌∷◌, map, arith, Text, Dict, lookup, insert, has, same,
  same_iff, includes, lookup-insert, has-insert, if◌then◌else◌,
}
use klatchr.Game.{Score}
use klatchr.Rounds.{fold_scores, points_or_zero}

-- The points that a list of scores gives to a player.
unfoldable pub earned : Text → List Score → ℕ
earned k [] = 0
earned k (s ∷ scores) = (if same s.player_id k then s.points else 0) + earned k scores

-- After a fold every player's total is the total before plus what the round's scores give them.
pub fold_scores_total :
    (k : Text) (base : Dict ℕ) (scores : List Score)
    → points_or_zero (lookup k (fold_scores base scores))
      ≡ points_or_zero (lookup k base) + earned k scores
unfolding fold_scores earned
fold_scores_total k base [] = omega arith
fold_scores_total k base (s ∷ scores) = ground (
  arith,
  fold_scores_total k
      (insert s.player_id (points_or_zero (lookup s.player_id base) + s.points) base) scores,
  lookup-insert s.player_id k (points_or_zero (lookup s.player_id base) + s.points) base,
  same_iff s.player_id k,
)

-- The fold adds exactly the players that the scores name.
pub has-fold_scores :
    (k : Text) (base : Dict ℕ) (scores : List Score)
    → has k (fold_scores base scores) ≡ (includes (map (λ s. s.player_id) scores) k || has k base)
unfolding fold_scores includes
has-fold_scores k base [] = refl
has-fold_scores k base (s ∷ scores) = ground (
  arith,
  has-fold_scores k (insert s.player_id (points_or_zero (lookup s.player_id base) + s.points) base)
      scores,
  has-insert s.player_id k (points_or_zero (lookup s.player_id base) + s.points) base,
)

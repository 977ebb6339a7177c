-- ===== src/Games/GuessWho/State.antt =====
-- packages/games/src/guessWho/state.ts, authors.ts and scoring.ts.
use klatchr.Prelude.{
  ℕ, ◌+◌, Bool, false, not, ◌||◌, none, some, List, [], ◌∷◌, map, filter, Text, same, includes,
  Dict, lookup, if◌then◌else◌,
}
use klatchr.Game.{Score}

pub data Phase : Type 0 where
  collect guess reveal : Phase

pub record AnswerCard : Type 0 where
  pub id : Text
  pub text : Text
  pub author_id : Text

pub record GwState : Type 0 where
  pub phase : Phase
  pub prompt : Text
  pub roster : List Text
  pub drafts : Dict Text
  pub skipped : List Text
  pub cards : List AnswerCard
  -- Guesser, then card id, then the author named.
  pub guesses : Dict (Dict Text)
  pub left : List Text
  pub salt : ℕ

-- Who can be named as an author.
unfoldable pub authors : GwState → List Text
authors s =
    filter (λ id. not (includes s.left id) || includes (map (λ c. c.author_id) s.cards) id) s.roster

-- `state.guesses[id] ?? {}`.
unfoldable pub guesses_of : Dict (Dict Text) → Text → Dict Text
guesses_of guesses id = elim (lookup id guesses) [ none ↦ [] | some mine ↦ mine ]

-- `mine[card.id] === card.authorId`.
unfoldable pub is_right : Dict Text → AnswerCard → Bool
is_right mine card = elim (lookup card.id mine) [
  | none ↦ false
  | some author ↦ same author card.author_id
]

-- The loop of the tally over the cards.
unfoldable pub right_guesses : Dict Text → List AnswerCard → ℕ
right_guesses mine [] = 0
right_guesses mine (card ∷ cards) = (if is_right mine card then 1 else 0) + right_guesses mine cards

unfoldable pub tally : GwState → List Score
tally s =
    map (λ id. record { player_id = id; points = right_guesses (guesses_of s.guesses id) s.cards })
      (filter (λ id. not (includes s.left id)) s.roster)

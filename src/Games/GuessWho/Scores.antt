-- ===== src/Games/GuessWho/Scores.antt =====
-- What a guess can earn, and how a round moves on.
use klatchr.Prelude.{
  ◌≤◌, ◌≡◌, true, false, not, some, List, [], ◌∷◌, map, filter, find, Text, Dict, lookup, same,
  same_iff, same_refl, includes, Distinct, length, ok, kept, after, arith, Option-cases, inl, inr,
  All,
}
use klatchr.Strings.{Unicode}
use klatchr.Game.{Score}
use klatchr.Games.GuessWho.State.{
  Phase, reveal, AnswerCard, GwState, guesses_of, is_right, right_guesses, tally,
}
use klatchr.Games.GuessWho.{advance, dispatch, on_advance, same_phase}
use klatchr.Games.GuessWho.Fair.{IsFair}

-- The cards that a player did not write.
abbrev pub others_cards : Text → List AnswerCard → List AnswerCard
others_cards k cards = filter (λ c. not (same c.author_id k)) cards

-- Among these cards, whatever the guesses name is a card that the player did not write.
abbrev Honest : Text → Dict Text → List AnswerCard → Type 0
Honest k mine cards =
    (id author : Text)
    → lookup id mine ≡ some author
    → includes (map (λ c. c.id) cards) id ≡ true
    → (card : AnswerCard) × (find (λ c. same c.id id) cards ≡ some card)
      × (same card.author_id k ≡ false)

Honest-tail :
    (k : Text) (mine : Dict Text) (c : AnswerCard) (cards : List AnswerCard)
    → includes (map (λ c. c.id) cards) c.id ≡ false
    → Honest k mine (c ∷ cards)
    → Honest k mine cards
unfolding includes
Honest-tail k mine c cards new h id author e there =
    let (card, found, other) = h id author e (ground arith) in
    (card, ground (arith, same_iff c.id id), other)

Honest-head :
    (k : Text) (mine : Dict Text) (c : AnswerCard) (cards : List AnswerCard)
    → Honest k mine (c ∷ cards)
    → is_right mine c ≡ true
    → same c.author_id k ≡ false
unfolding includes is_right
Honest-head k mine c cards h right = elim (Option-cases (lookup c.id mine)) [
  | inl none_named ↦ absurd (ground arith)
  | inr (author, named) ↦
      let (card, found, other) = h c.id author named (ground (arith, same_refl c.id)) in
      ground (arith, same_refl c.id)
]

right_guesses-le :
    (k : Text) (mine : Dict Text) (cards : List AnswerCard)
    → Distinct (map (λ c. c.id) cards)
    → Honest k mine cards
    → right_guesses mine cards ≤ length (others_cards k cards)
unfolding right_guesses
right_guesses-le k mine [] d h = omega arith
right_guesses-le k mine (c ∷ cards) d h = ground (
  arith,
  right_guesses-le k mine cards d.1 (Honest-tail k mine c cards d.0 h),
  Honest-head k mine c cards h,
)

tally-le :
    (s : GwState) (ids : List Text)
    → IsFair s
    → All
        (λ (score : Score). score.points ≤ length (others_cards score.player_id s.cards))
        (map
          (λ id. record {
            player_id = id;
            points = right_guesses (guesses_of s.guesses id) s.cards;
          })
          ids)
tally-le s [] v = tt
tally-le s (id ∷ ids) v = (
  right_guesses-le id (guesses_of s.guesses id) s.cards v.card_ids
      (λ c author e there. v.not_own id c author e),
  tally-le s ids v,
)

-- In a fair round nobody scores more than the cards of the others: no point comes from a card of
-- one's own.
pub tally-le-others :
    (s : GwState)
    → IsFair s
    → All
        (λ (score : Score). score.points ≤ length (others_cards score.player_id s.cards))
        (tally s)
unfolding tally
tally-le-others s v = tally-le s (filter (λ id. not (includes s.left id)) s.roster) v

-- A second copy of an advance from the collecting or the guessing phase changes nothing: the
-- host's double tap moves the round on once.
pub advance_once :
    (u : Unicode) (s : GwState) (from : Phase)
    → same_phase from reveal ≡ false
    → dispatch u (after s (dispatch u s (advance from))) (advance from) ≡ ok kept
unfolding dispatch on_advance same_phase
advance_once u s from h = ground arith

-- ===== src/Games/GuessWho/Fair/Kept.antt =====
-- Every event keeps a round fair.
use klatchr.Prelude.{
  ◌≡◌, subst, true, false, some, [], ◌∷◌, ◌++◌, Text, keys, lookup, has, includes,
  length-le_of_subset, length-map, ok, fresh, after, after_cases, arith, Bool-cases, inl, inr,
}
use klatchr.Value.{Value}
use klatchr.Strings.{Unicode, bounded_text}
use klatchr.Games.GuessWho.State.{Phase, collect, guess, reveal, GwState, guesses_of}
use klatchr.Games.GuessWho.Cards.{build_cards}
use klatchr.Games.GuessWho.Cards.Order.{build_cards-Distinct}
use klatchr.Games.GuessWho.{
  GwEvent, submit, skip, guess_author, advance, player_joined, player_left, reduce, dispatch,
  on_submit, on_skip, on_advance, on_guess, collect_guard, same_phase, is_event, event_of,
  max_answer_len,
}
use klatchr.Games.GuessWho.Redaction.{on_submit-ok, on_guess-ok, same_phase-eq}
use klatchr.Games.GuessWho.Fair.Moves.{
  submitted-IsFair, skipped-IsFair, departed-IsFair, guessed-IsFair, no_guess,
}
use klatchr.Games.GuessWho.Fair.{IsFair}

frozen-IsFair :
    (u : Unicode) (s : GwState)
    → s.phase ≡ collect
    → IsFair s
    → IsFair (record s { phase = guess; cards = build_cards u s })
unfolding guesses_of lookup has
frozen-IsFair u s p v = record {
  few = v.few;
  one_answer = v.one_answer;
  drafters = v.drafters;
  skippers = v.skippers;
  leavers = v.leavers;
  left_once = v.left_once;
  unguessed = λ p. cc;
  card_ids = build_cards-Distinct u s (
      omega (
        arith,
        length-map (λ (e : Text × Text). e.0) s.drafts,
        length-le_of_subset (keys s.drafts) s.roster v.one_answer v.drafters,
        v.few,
      ));
  guessers = v.guessers;
  not_own = λ k c a h.
      absurd (no_guess k c a (subst (λ g. lookup c (guesses_of g k) ≡ some a) (v.unguessed p) h));
}

revealed-IsFair :
    (s : GwState)
    → same_phase s.phase collect ≡ false
    → IsFair s
    → IsFair (record s { phase = reveal })
revealed-IsFair s p v = record {
  few = v.few;
  one_answer = v.one_answer;
  drafters = v.drafters;
  skippers = v.skippers;
  leavers = v.leavers;
  left_once = v.left_once;
  unguessed = λ q. cc;
  card_ids = v.card_ids;
  guessers = v.guessers;
  not_own = v.not_own;
}

on_skip-ok :
    (s x : GwState) (id : Text)
    → on_skip s id ≡ ok (fresh x)
    → (includes s.roster id ≡ true) × (record s { skipped = s.skipped ++ id ∷ [] } ≡ x)
unfolding on_skip collect_guard
on_skip-ok s x id h = (ground arith, ground arith)

on_advance-IsFair :
    (u : Unicode) (s : GwState) (from : Phase) → IsFair s → IsFair (after s (on_advance u s from))
unfolding on_advance
on_advance-IsFair u s from v = elim (Bool-cases (same_phase from s.phase)) [
  | inr stale ↦ rw (stale, after) v
  | inl due ↦
      rw (due, after)
        (elim (Bool-cases (same_phase s.phase collect)) [
          | inl collecting ↦
              rw (collecting, after)
                (frozen-IsFair u s (same_phase-eq s.phase collect collecting) v)
          | inr guessing ↦ rw (guessing, after) (revealed-IsFair s guessing v)
        ])
]

dispatch-IsFair :
    (u : Unicode) (s : GwState) (event : GwEvent) → IsFair s → IsFair (after s (dispatch u s event))
unfolding dispatch
dispatch-IsFair u s (submit id raw) v = after_cases IsFair s (on_submit u s id raw) v λ x e.
    let (_, seated, made) = on_submit-ok u s x id raw e in
    rw made (submitted-IsFair s id (bounded_text u raw max_answer_len) seated v)
dispatch-IsFair u s (skip id) v =
    after_cases IsFair s (on_skip s id) v
      λ x e. let (seated, made) = on_skip-ok s x id e in rw (← made) (skipped-IsFair s id seated v)
dispatch-IsFair u s (guess_author id card_id author) v =
    after_cases IsFair s (on_guess s id card_id author) v λ x e.
      let (playing, seated, _, (card, found, other), made) = on_guess-ok s x id card_id author e in
      rw made (guessed-IsFair s id card_id author card playing seated found other v)
dispatch-IsFair u s (advance from) v = on_advance-IsFair u s from v
dispatch-IsFair u s player_joined v = v
dispatch-IsFair u s (player_left id) v = departed-IsFair s id v

-- Every event keeps a round fair, the malformed and the refused ones too: answers, skips and
-- guesses are by seated players, an answer is one per player, no guess is made before the cards
-- are frozen, and every guess is about a card that is there and that its guesser did not write.
pub reduce-IsFair :
    (u : Unicode) (s : GwState) (event : Value) → IsFair s → IsFair (after s (reduce u s event))
unfolding reduce
reduce-IsFair u s event v = elim (Bool-cases (is_event event)) [
  | inl shaped ↦ rw (shaped, after) (dispatch-IsFair u s (event_of event) v)
  | inr bad ↦ rw (bad, after) v
]

-- ===== src/Games/GuessWho/Fair.antt =====
-- A round of Guess Who stays fair: who can answer, who can guess what, and what a guess can earn.
pub mod Moves
pub mod Kept
use klatchr.Prelude.{
  ◌^◌, ◌≤◌, ◌≡◌, ◌≢◌, refl, subst, true, false, not, ◌&&◌, some, List, [], ◌∷◌, ◌++◌, map, find,
  Text, keys, lookup, insert, has, has-insert, Distinct-keys-insert, lookup-insert, same, same_iff,
  includes, includes-append, Distinct, Distinct-snoc, length-le_of_subset, length, length-map, ok,
  fresh, next_of, after, after_cases, arith, Bool-cases, inl, inr,
}
use klatchr.Value.{Value}
use klatchr.Strings.{Unicode, bounded_text}
use klatchr.Game.{GameDeps, Player}
use klatchr.Games.{departed}
use klatchr.Games.GuessWho.State.{Phase, collect, guess, reveal, AnswerCard, GwState, guesses_of}
use klatchr.Games.GuessWho.Cards.{build_cards}
use klatchr.Games.GuessWho.Cards.Order.{build_cards-Distinct}
use klatchr.Games.GuessWho.{
  GwEvent, submit, skip, guess_author, advance, player_joined, player_left, init, reduce, dispatch,
  on_submit, on_skip, on_advance, on_guess, collect_guard, same_phase, is_event, event_of,
  max_answer_len,
}
use klatchr.Games.GuessWho.Redaction.{on_submit-ok, on_guess-ok, guesses_of-insert, same_phase-eq}

pub record IsFair (s : GwState) : Type 0 where
  pub few : length s.roster ≤ 10 ^ 10
  pub one_answer : Distinct (keys s.drafts)
  pub drafters : (k : Text) → has k s.drafts ≡ true → includes s.roster k ≡ true
  pub skippers : (k : Text) → includes s.skipped k ≡ true → includes s.roster k ≡ true
  pub leavers : (k : Text) → includes s.left k ≡ true → includes s.roster k ≡ true
  pub left_once : Distinct s.left
  pub unguessed : s.phase ≡ collect → s.guesses ≡ []
  pub card_ids : Distinct (map (λ c. c.id) s.cards)
  pub guessers : (k : Text) → has k s.guesses ≡ true → includes s.roster k ≡ true
  -- Every guess is about a card that is there and that the guesser did not write.
  pub not_own :
      (k card_id author : Text)
      → lookup card_id (guesses_of s.guesses k) ≡ some author
      → (card : AnswerCard) × (find (λ c. same c.id card_id) s.cards ≡ some card)
        × (same card.author_id k ≡ false)

pub init-IsFair :
    (u : Unicode) (active : List Player) (deps : GameDeps) (config : Value)
    → length active ≤ 10 ^ 10
    → IsFair (init u active deps config)
unfolding init has includes guesses_of lookup
init-IsFair u active deps config b = record {
  few = omega (arith, length-map (λ (p : Player). p.id) active);
  one_answer = tt;
  drafters = λ k h. cc;
  skippers = λ k h. cc;
  leavers = λ k h. cc;
  left_once = tt;
  unguessed = λ p. refl;
  card_ids = tt;
  guessers = λ k h. cc;
  not_own = λ k card_id author h. absurd (cc);
}

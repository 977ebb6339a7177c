-- ===== src/Games/GuessWho/Fair/Moves.antt =====
-- An answer, a skip, a departure and a guess keep a round fair.
use klatchr.Prelude.{
  ◌≡◌, ◌≢◌, subst, true, false, not, ◌&&◌, some, [], ◌∷◌, ◌++◌, find, Text, lookup, insert,
  has-insert, Distinct-keys-insert, lookup-insert, same, same_iff, includes, includes-append,
  Distinct-snoc, next_of, arith, Bool-cases, inl, inr,
}
use klatchr.Games.{departed}
use klatchr.Games.GuessWho.State.{guess, AnswerCard, GwState, guesses_of}
use klatchr.Games.GuessWho.Redaction.{guesses_of-insert}
use klatchr.Games.GuessWho.Fair.{IsFair}

pub submitted-IsFair :
    (s : GwState) (id text : Text)
    → includes s.roster id ≡ true
    → IsFair s
    → IsFair (record s { drafts = insert id text s.drafts })
submitted-IsFair s id text seated v = record {
  few = v.few;
  one_answer = Distinct-keys-insert id text s.drafts v.one_answer;
  drafters = λ k h. ground (arith, has-insert id k text s.drafts, v.drafters k, same_iff id k);
  skippers = v.skippers;
  leavers = v.leavers;
  left_once = v.left_once;
  unguessed = v.unguessed;
  card_ids = v.card_ids;
  guessers = v.guessers;
  not_own = v.not_own;
}

pub skipped-IsFair :
    (s : GwState) (id : Text)
    → includes s.roster id ≡ true
    → IsFair s
    → IsFair (record s { skipped = s.skipped ++ id ∷ [] })
unfolding includes
skipped-IsFair s id seated v = record {
  few = v.few;
  one_answer = v.one_answer;
  drafters = v.drafters;
  skippers =
      λ k h. ground (arith, includes-append s.skipped (id ∷ []) k, v.skippers k, same_iff id k);
  leavers = v.leavers;
  left_once = v.left_once;
  unguessed = v.unguessed;
  card_ids = v.card_ids;
  guessers = v.guessers;
  not_own = v.not_own;
}

pub departed-IsFair :
    (s : GwState) (id : Text)
    → IsFair s
    → IsFair (next_of s (departed s.roster s.left (λ left. record s { left = left }) id))
unfolding departed includes
departed-IsFair s id v = elim (Bool-cases (includes s.roster id && not (includes s.left id))) [
  | inr stays ↦ rw (stays, next_of) v
  | inl leaves ↦
      rw (leaves, next_of)
        (record {
          few = v.few;
          one_answer = v.one_answer;
          drafters = v.drafters;
          skippers = v.skippers;
          leavers =
              λ k h. ground (arith, includes-append s.left (id ∷ []) k, v.leavers k, same_iff id k);
          left_once = Distinct-snoc s.left id v.left_once (ground arith);
          unguessed = v.unguessed;
          card_ids = v.card_ids;
          guessers = v.guessers;
          not_own = v.not_own;
        })
]

-- A card that the guesser did not write.
abbrev pub NotOwn : GwState → Text → Text → Type 0
NotOwn s k card_id =
    (card : AnswerCard) × (find (λ c. same c.id card_id) s.cards ≡ some card)
    × (same card.author_id k ≡ false)

pub guessed-NotOwn :
    (s : GwState) (id card_id author : Text) (card : AnswerCard)
    → find (λ c. same c.id card_id) s.cards ≡ some card
    → same card.author_id id ≡ false
    → ((k c a : Text) → lookup c (guesses_of s.guesses k) ≡ some a → NotOwn s k c)
    → (k c a : Text)
    → lookup c
        (guesses_of (insert id (insert card_id author (guesses_of s.guesses id)) s.guesses) k)
      ≡ some a
    → NotOwn s k c
guessed-NotOwn s id card_id author card found other before k c a h = elim (Bool-cases (same id k)) [
  | inr apart ↦ before k c a (
      ground
        (arith, guesses_of-insert id k (insert card_id author (guesses_of s.guesses id)) s.guesses))
  | inl hit ↦
      subst (λ j. NotOwn s j c) ((same_iff id k).0 hit)
        (elim (Bool-cases (same card_id c)) [
          | inl this ↦ subst (NotOwn s id) ((same_iff card_id c).0 this) (card, found, other)
          | inr that ↦ before id c a (
              ground (
                arith,
                guesses_of-insert id k (insert card_id author (guesses_of s.guesses id)) s.guesses,
                lookup-insert card_id c author (guesses_of s.guesses id),
              ))
        ])
]

pub no_guess : (k c a : Text) → lookup c (guesses_of [] k) ≢ some a
unfolding guesses_of lookup
no_guess k c a h = cc

pub guessed-IsFair :
    (s : GwState) (id card_id author : Text) (card : AnswerCard)
    → s.phase ≡ guess
    → includes s.roster id ≡ true
    → find (λ c. same c.id card_id) s.cards ≡ some card
    → same card.author_id id ≡ false
    → IsFair s
    → IsFair (record s {
      guesses = insert id (insert card_id author (guesses_of s.guesses id)) s.guesses;
    })
guessed-IsFair s id card_id author card playing seated found other v = record {
  few = v.few;
  one_answer = v.one_answer;
  drafters = v.drafters;
  skippers = v.skippers;
  leavers = v.leavers;
  left_once = v.left_once;
  unguessed = λ p. cc;
  card_ids = v.card_ids;
  guessers = λ k h. ground (
    arith,
    has-insert id k (insert card_id author (guesses_of s.guesses id)) s.guesses,
    v.guessers k,
    same_iff id k,
  );
  not_own = λ k c a h. guessed-NotOwn s id card_id author card found other v.not_own k c a h;
}

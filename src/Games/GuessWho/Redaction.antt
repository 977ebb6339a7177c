-- ===== src/Games/GuessWho/Redaction.antt =====
-- What the views of a round keep from everybody but the player concerned.
use klatchr.Prelude.{
  ◌≡◌, ◌≢◌, refl, sym, ap, ◌∙◌, true, false, some, List, map, Text, Dict, keys, insert, has, same,
  same_iff, includes, keys-insert, lookup-insert, find, Option-cases, inl, inr, ok, fresh, arith,
  if◌then◌else◌,
}
use klatchr.Strings.{Unicode, bounded_text}
use klatchr.Game.{Viewer, player, host}
use klatchr.Games.GuessWho.State.{Phase, collect, guess, AnswerCard, GwState, authors, guesses_of}
use klatchr.Games.GuessWho.View.{
  view_for, phase_view, collect_view, guess_view, resolved, progress, bare, own_card,
}
use klatchr.Games.GuessWho.{
  dispatch, submit, guess_author, on_submit, on_guess, collect_guard, same_phase, max_answer_len,
}

-- While answers are collected a view shows who has answered and nothing else of the answers.
pub collect_blind :
    (s : GwState) (drafts : Dict Text) (viewer : Viewer)
    → s.phase ≡ collect
    → keys drafts ≡ keys s.drafts
    → view_for (record s { drafts = drafts }) viewer ≡ view_for s viewer
unfolding view_for phase_view collect_view resolved progress has
collect_blind s drafts host p e = ground arith
collect_blind s drafts (player id) p e = ground arith

pub same_phase-eq : (p q : Phase) → same_phase p q ≡ true → p ≡ q
unfolding same_phase
same_phase-eq p q h = ground arith

-- What an accepted answer makes of the round.
pub on_submit-ok :
    (u : Unicode) (s x : GwState) (id raw : Text)
    → on_submit u s id raw ≡ ok (fresh x)
    → (s.phase ≡ collect)
      × (includes s.roster id ≡ true)
      × (x ≡ record s { drafts = insert id (bounded_text u raw max_answer_len) s.drafts })
unfolding on_submit collect_guard
on_submit-ok u s x id raw h =
    (same_phase-eq s.phase collect (ground arith), ground arith, ground arith)

-- Two accepted answers of one player leave the same views, for every viewer: no view of the
-- collecting phase depends on what anybody wrote.
pub submit_hidden :
    (u : Unicode) (s x y : GwState) (id a b : Text) (viewer : Viewer)
    → dispatch u s (submit id a) ≡ ok (fresh x)
    → dispatch u s (submit id b) ≡ ok (fresh y)
    → view_for x viewer ≡ view_for y viewer
unfolding dispatch
submit_hidden u s x y id a b viewer hx hy =
    let (p, _, ex) = on_submit-ok u s x id a hx in
    let (_, _, ey) = on_submit-ok u s y id b hy in
    let text = λ (raw : Text). bounded_text u raw max_answer_len in
    rw (ex, ey)
      (sym (
        collect_blind (record s { drafts = insert id (text a) s.drafts })
          (insert id (text b) s.drafts) viewer p
          (keys-insert id (text b) s.drafts ∙ sym (keys-insert id (text a) s.drafts))))

-- While authors are guessed a view depends on the cards' texts, on who wrote any card at all, on
-- who has guessed, and on the viewer's own guesses and card; not on who wrote which card, nor on
-- what anybody else has guessed.
pub guess_blind :
    (s : GwState) (cards : List AnswerCard) (guesses : Dict (Dict Text)) (viewer : Viewer)
    → s.phase ≡ guess
    → map bare cards ≡ map bare s.cards
    → authors (record s { cards = cards }) ≡ authors s
    → keys guesses ≡ keys s.guesses
    → ((id : Text) → viewer ≡ player id → guesses_of guesses id ≡ guesses_of s.guesses id)
    → ((id : Text) → viewer ≡ player id → own_card id cards ≡ own_card id s.cards)
    → view_for (record s { cards = cards; guesses = guesses }) viewer ≡ view_for s viewer
unfolding view_for phase_view guess_view authors
guess_blind s cards guesses host p c a k mine own = ground arith
guess_blind s cards guesses (player id) p c a k mine own = ground (arith, mine id refl, own id refl)

-- What an accepted guess makes of the round.
pub on_guess-ok :
    (s x : GwState) (id card_id author : Text)
    → on_guess s id card_id author ≡ ok (fresh x)
    → (s.phase ≡ guess)
      × (includes s.roster id ≡ true)
      × (includes (authors s) author ≡ true)
      × ((card : AnswerCard) × (find (λ c. same c.id card_id) s.cards ≡ some card)
          × (same card.author_id id ≡ false))
      × (x ≡ record s {
        guesses = insert id (insert card_id author (guesses_of s.guesses id)) s.guesses;
      })
unfolding on_guess
on_guess-ok s x id card_id author h = elim (Option-cases (find (λ c. same c.id card_id) s.cards)) [
  | inl missing ↦ absurd (ground arith)
  | inr (card, found) ↦ (
    same_phase-eq s.phase guess (ground arith),
    ground arith,
    ground arith,
    (card, found, ground arith),
    ground arith,
  )
]

pub guesses_of-insert :
    (id k : Text) (mine : Dict Text) (guesses : Dict (Dict Text))
    → guesses_of (insert id mine guesses) k ≡ (if same id k then mine else guesses_of guesses k)
unfolding guesses_of
guesses_of-insert id k mine guesses = ground (arith, lookup-insert id k mine guesses)

guesses_of_other :
    (id k : Text) (mine mine' : Dict Text) (guesses : Dict (Dict Text))
    → id ≢ k
    → guesses_of (insert id mine guesses) k ≡ guesses_of (insert id mine' guesses) k
guesses_of_other id k mine mine' guesses d = ground (
  arith,
  guesses_of-insert id k mine guesses,
  guesses_of-insert id k mine' guesses,
  same_iff id k,
)

-- Two accepted guesses of one player about one card leave the same views for everybody else.
pub guess_hidden :
    (u : Unicode) (s x y : GwState) (id card a b : Text) (viewer : Viewer)
    → viewer ≢ player id
    → dispatch u s (guess_author id card a) ≡ ok (fresh x)
    → dispatch u s (guess_author id card b) ≡ ok (fresh y)
    → view_for x viewer ≡ view_for y viewer
unfolding dispatch
guess_hidden u s x y id card a b viewer other hx hy =
    let (p, _, _, _, ex) = on_guess-ok s x id card a hx in
    let (_, _, _, _, ey) = on_guess-ok s y id card b hy in
    let after =
      λ (author : Text). insert id (insert card author (guesses_of s.guesses id)) s.guesses in
    rw (ex, ey)
      (guess_blind (record s { guesses = after b }) s.cards (after a) viewer p refl refl
        (keys-insert id (insert card a (guesses_of s.guesses id)) s.guesses
          ∙ sym (keys-insert id (insert card b (guesses_of s.guesses id)) s.guesses))
        (λ k e. guesses_of_other id k _ _ s.guesses (λ hit. other (e ∙ ap player (sym hit))))
        (λ k e. refl))

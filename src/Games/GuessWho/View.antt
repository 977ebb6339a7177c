-- ===== src/Games/GuessWho/View.antt =====
-- packages/games/src/guessWho/view.ts: what a viewer may see of a round. Each object that `viewFor`
-- returns is a constructor, with its fields in the source's order.
use klatchr.Prelude.{
  ℕ, ◌-◌, Bool, not, Option, none, some, List, [], ◌∷◌, ◌++◌, map, filter, find, Text, same,
  includes, Dict, keys, has, length, if◌then◌else◌,
}
use klatchr.Game.{Viewer, player, host, Score}
use klatchr.Games.GuessWho.State.{
  Phase, collect, guess, reveal, AnswerCard, GwState, authors, guesses_of, tally,
}

-- A card with its author stripped.
pub record BareCard : Type 0 where
  pub id : Text
  pub text : Text

pub record Progress : Type 0 where
  pub submitted_count : ℕ
  pub total : ℕ

pub data GwView : Type 0 where
  collect_host : (prompt : Text) (submitted : List Text) (progress : Progress) → GwView
  collect_player : (prompt : Text) (you_submitted you_skipped : Bool) (progress : Progress) → GwView
  guess_host : (prompt : Text) (cards : List BareCard) (candidates guessed : List Text) → GwView
  guess_player :
      (prompt : Text) (cards : List BareCard) (candidates : List Text) (my_guesses : Dict Text)
      (your_card_id : Option Text)
      → GwView
  reveal_host : (prompt : Text) (cards : List AnswerCard) (scores : List Score) → GwView
  reveal_player :
      (prompt : Text) (cards : List AnswerCard) (scores : List Score) (my_guesses : Dict Text)
      → GwView

-- `[...new Set(xs)]` with the elements of `seen` left out.
unfoldable pub unique_from : List Text → List Text → List Text
unique_from seen [] = []
unique_from seen (x ∷ xs) =
    let rest = unique_from (x ∷ seen) xs in
    let skipped = unique_from seen xs in if includes seen x then skipped else x ∷ rest

unfoldable pub resolved : GwState → List Text
resolved s = unique_from [] (keys s.drafts ++ s.skipped)

unfoldable pub progress : GwState → Progress
progress s = record {
  submitted_count = length (resolved s);
  total = length s.roster - length (filter (λ id. not (includes (resolved s) id)) s.left);
}

unfoldable pub collect_view : GwState → Viewer → GwView
collect_view s host = collect_host s.prompt (resolved s) (progress s)
collect_view s (player id) =
    collect_player s.prompt (has id s.drafts) (includes s.skipped id) (progress s)

unfoldable pub bare : AnswerCard → BareCard
bare card = record { id = card.id; text = card.text }

unfoldable pub own_card : Text → List AnswerCard → Option Text
own_card id cards = elim (find (λ c. same c.author_id id) cards) [
  | none ↦ none
  | some c ↦ some c.id
]

unfoldable pub guess_view : GwState → Viewer → GwView
guess_view s host = guess_host s.prompt (map bare s.cards) (authors s) (keys s.guesses)
guess_view s (player id) =
    guess_player s.prompt (map bare s.cards) (authors s) (guesses_of s.guesses id)
      (own_card id s.cards)

unfoldable pub reveal_view : GwState → Viewer → GwView
reveal_view s host = reveal_host s.prompt s.cards (tally s)
reveal_view s (player id) = reveal_player s.prompt s.cards (tally s) (guesses_of s.guesses id)

unfoldable pub phase_view : Phase → GwState → Viewer → GwView
phase_view collect s viewer = collect_view s viewer
phase_view guess s viewer = guess_view s viewer
phase_view reveal s viewer = reveal_view s viewer

unfoldable pub view_for : GwState → Viewer → GwView
view_for s viewer = phase_view s.phase s viewer

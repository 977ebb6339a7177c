-- ===== src/Games/Catalogue.antt =====
-- packages/games/src/index.ts: the games that the platform offers, with their types erased as the
-- registry holds them (`guessWho` and `mostLikelyTo`, at the ends of their files).
pub mod Owned
use klatchr.Prelude.{
  ℕ, Bool, true, false, Option, none, some, List, [], ◌∷◌, map, Text, codes, Result, ok, err, Next,
  kept, fresh, next_of, ◌≡◌, refl, same, same_iff, lookup, arith, if◌then◌else◌, Bool-cases, inl,
  inr, subst, sym,
}
use klatchr.Value.{Value}
use klatchr.Strings.{Unicode}
use klatchr.Game.{Game, GameDeps, GameError, Player, Score, Viewer, teams, strangers}
use klatchr.Registry.{Registry, get_game, create_registry}
use klatchr.Games.Prompts.{prompt_count}
use klatchr.Games.GuessWho
use klatchr.Games.GuessWho.State
use klatchr.Games.GuessWho.State.{GwState}
use klatchr.Games.GuessWho.View
use klatchr.Games.GuessWho.View.{GwView}
use klatchr.Games.MostLikely
use klatchr.Games.MostLikely.{MltState, MltView}

-- What the room holds as `unknown`: nothing yet, or a state of one of the games.
pub data AnyState : Type 0 where
  nothing : AnyState
  of_guess_who : GwState → AnyState
  of_most_likely : MltState → AnyState

pub data AnyView : Type 0 where
  no_view : AnyView
  guess_who_view : GwView → AnyView
  most_likely_view : MltView → AnyView

unfoldable pub map_result : {S T E : Type 0} → (S → T) → Result (Next S) E → Result (Next T) E
map_result f (ok kept) = ok kept
map_result f (ok (fresh s)) = ok (fresh (f s))
map_result f (err e) = err e

-- The source does not say what a game does to a state of another game; here it refuses it.
abbrev pub foreign_state : GameError
foreign_state = record { code = codes "FOREIGN_STATE"; message = none }

unfoldable pub reduce_guess_who : Unicode → AnyState → Value → Result (Next AnyState) GameError
reduce_guess_who u (of_guess_who s) event = map_result of_guess_who (GuessWho.reduce u s event)
reduce_guess_who u s event = err foreign_state

unfoldable pub view_guess_who : AnyState → Viewer → AnyView
view_guess_who (of_guess_who s) viewer = guess_who_view (View.view_for s viewer)
view_guess_who s viewer = no_view

unfoldable pub scores_guess_who : AnyState → List Score
scores_guess_who (of_guess_who s) = State.tally s
scores_guess_who s = []

unfoldable pub guess_who_complete : AnyState → Bool
guess_who_complete (of_guess_who s) = GuessWho.is_complete s
guess_who_complete s = false

unfoldable pub reduce_most_likely : AnyState → Value → Result (Next AnyState) GameError
reduce_most_likely (of_most_likely s) event = map_result of_most_likely (MostLikely.reduce s event)
reduce_most_likely s event = err foreign_state

unfoldable pub view_most_likely : AnyState → Viewer → AnyView
view_most_likely (of_most_likely s) viewer = most_likely_view (MostLikely.view_for s viewer)
view_most_likely s viewer = no_view

unfoldable pub scores_most_likely : AnyState → List Score
scores_most_likely (of_most_likely s) = MostLikely.tally s
scores_most_likely s = []

unfoldable pub most_likely_complete : AnyState → Bool
most_likely_complete (of_most_likely s) = MostLikely.is_complete s
most_likely_complete s = false

abbrev pub guess_who : Unicode → Game AnyState AnyView
guess_who u = record {
  id = codes "guess-who";
  name = codes "Guess Who Said It";
  description = codes "Everyone answers a prompt, then guesses who said which.";
  contexts = some (teams ∷ []);
  min_players = 3;
  max_players = 12;
  init = λ active deps config. of_guess_who (GuessWho.init u active deps config);
  reduce = reduce_guess_who u;
  view = view_guess_who;
  scores = scores_guess_who;
  is_complete = guess_who_complete;
  round_count = some (λ config. prompt_count u config GuessWho.prompts);
}

abbrev pub most_likely_to : Unicode → Game AnyState AnyView
most_likely_to u = record {
  id = codes "most-likely-to";
  name = codes "Most Likely To";
  description = codes "Everyone votes for who fits the prompt, then the tally is revealed.";
  contexts = some (teams ∷ strangers ∷ []);
  min_players = 3;
  max_players = 20;
  init = λ active deps config. of_most_likely (MostLikely.init u active deps config);
  reduce = reduce_most_likely;
  view = view_most_likely;
  scores = scores_most_likely;
  is_complete = most_likely_complete;
  round_count = some (λ config. prompt_count u config MostLikely.prompts);
}

abbrev pub games : Unicode → List (Game AnyState AnyView)
games u = guess_who u ∷ most_likely_to u ∷ []

abbrev pub catalogue : Unicode → Registry AnyState AnyView
catalogue u = record {
  by_id = (codes "guess-who", guess_who u) ∷ (codes "most-likely-to", most_likely_to u) ∷ [];
}

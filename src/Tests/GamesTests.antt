-- ===== src/Tests/GamesTests.antt =====
-- The theorems on the games, each at a concrete input.
use klatchr.Prelude.{
  ℕ, zero, suc, ◌+◌, ◌*◌, ◌^◌, ◌≤◌, ◌<◌, ◌≡◌, ◌≢◌, refl, true, false, Option, none, some, List, [],
  ◌∷◌, Text, codes, length, map, Dict, lookup, Distinct, ok, kept, fresh, after, All, arith,
  get_elem?, not, filter, same, keys, values,
}
use mathlib.Core.List.{Perm}
use klatchr.Value.{Value, Items, str, arr, obj, nil, cons, end, field, undefined}
use klatchr.Game.{host}
use klatchr.Games.Prompts.{
  prompt_count, choose_prompt, valid_prompts, session_bank, bank_list, Bank,
}
use klatchr.Games.Prompts.Laws.{valid_prompts-IsClean, IsClean}
use klatchr.Games.GuessWho
use klatchr.Games.GuessWho.State
use klatchr.Games.GuessWho.State.{AnswerCard, GwState, collect, guess, reveal}
use klatchr.Games.GuessWho.Cards.{build_cards}
use klatchr.Games.GuessWho.Cards.Order.{entries, IsCollation, build_cards-perm}
use klatchr.Games.GuessWho.View
use klatchr.Games.GuessWho.Redaction.{submit_hidden, guess_hidden, guess_blind}
use klatchr.Games.GuessWho.Fair.{IsFair, init-IsFair}
use klatchr.Games.GuessWho.Fair.Kept.{reduce-IsFair}
use klatchr.Games.MostLikely
use klatchr.Games.MostLikely.{MltState, vote, results}
use klatchr.Games.MostLikely.Secret.{results_blind}
use klatchr.Games.MostLikely.Tally.{IsValid, init-IsValid, reduce-IsValid, total, total-tally}
use klatchr.Tests.Samples.{latin, trio, round_deps, vote_event}

-- A round of "Guess Who Said It" with two answers in.
abbrev answering : GwState
answering = record {
  phase = collect;
  prompt = codes "Food?";
  roster = codes "a" ∷ codes "b" ∷ codes "c" ∷ [];
  drafts = (codes "a", codes "Pie") ∷ (codes "b", codes "Fig") ∷ [];
  skipped = [];
  cards = [];
  guesses = [];
  left = [];
  salt = 7;
}

abbrev pie : AnswerCard
pie = record { id = codes "c0"; text = codes "Pie"; author_id = codes "a" }

abbrev fig : AnswerCard
fig = record { id = codes "c1"; text = codes "Fig"; author_id = codes "b" }

abbrev guessing : GwState
guessing = record answering { phase = guess; cards = pie ∷ fig ∷ [] }

-- The same round with the authors of the two cards exchanged.
abbrev exchanged : List AnswerCard
exchanged = record pie { author_id = codes "b" } ∷ record fig { author_id = codes "a" } ∷ []

abbrev answered : Text → GwState
answered text =
    after answering (GuessWho.dispatch latin answering (GuessWho.submit (codes "c") text))

abbrev guessed : Text → GwState
guessed author =
    after guessing
      (GuessWho.dispatch latin guessing (GuessWho.guess_author (codes "c") (codes "c0") author))

submit_hidden_example :
    View.view_for (answered (codes "Jam")) host ≡ View.view_for (answered (codes "Bun")) host
unfolding klatchr.Prelude.same klatchr.Prelude.includes klatchr.Strings.is_space
    klatchr.Strings.trim_start klatchr.Strings.trim_end klatchr.Strings.trim
    klatchr.Strings.keep_segments klatchr.Strings.bounded_text klatchr.Games.GuessWho.same_phase
    klatchr.Games.GuessWho.collect_guard klatchr.Games.GuessWho.on_submit
    klatchr.Games.GuessWho.dispatch
submit_hidden_example =
    submit_hidden latin answering (answered (codes "Jam")) (answered (codes "Bun")) (codes "c")
      (codes "Jam") (codes "Bun") host refl refl

guess_hidden_example :
    View.view_for (guessed (codes "a")) host ≡ View.view_for (guessed (codes "b")) host
unfolding klatchr.Prelude.same klatchr.Prelude.includes klatchr.Games.GuessWho.same_phase
    klatchr.Games.GuessWho.on_guess klatchr.Games.GuessWho.dispatch
    klatchr.Games.GuessWho.State.authors
guess_hidden_example =
    guess_hidden latin guessing (guessed (codes "a")) (guessed (codes "b")) (codes "c") (codes "c0")
      (codes "a") (codes "b") host (λ e. cc) refl refl

guess_blind_example :
    View.view_for (record guessing { cards = exchanged; guesses = [] }) host
    ≡ View.view_for guessing host
unfolding klatchr.Prelude.includes klatchr.Games.GuessWho.State.authors
    klatchr.Games.GuessWho.View.bare
guess_blind_example =
    guess_blind guessing exchanged [] host refl refl refl refl (λ id e. refl) (λ id e. absurd (cc))

abbrev sent : Text → Text → Text → Text → Value
sent kind player_id key text = obj (
    field (codes "type") (str kind)
      (field (codes "playerId") (str player_id) (field key (str text) end)))

abbrev begun : GwState
begun = GuessWho.init latin trio round_deps undefined

abbrev gw_after : GwState → Value → GwState
gw_after s event = after s (GuessWho.reduce latin s event)

abbrev pie_sent : Value
pie_sent = sent (codes "submit") (codes "a") (codes "text") (codes "Pie")

abbrev fig_sent : Value
fig_sent = sent (codes "submit") (codes "b") (codes "text") (codes "Fig")

abbrev collect_over : Value
collect_over = obj (
    field (codes "type") (str (codes "advance")) (field (codes "from") (str (codes "collect")) end))

abbrev both_sent : GwState
both_sent = gw_after (gw_after begun pie_sent) fig_sent

abbrev dealt : GwState
dealt = gw_after both_sent collect_over

both_sent-IsFair : IsFair both_sent
both_sent-IsFair =
    reduce-IsFair latin (gw_after begun pie_sent) fig_sent (
      reduce-IsFair latin begun pie_sent
        (init-IsFair latin trio round_deps undefined (omega arith)))

dealt-IsFair : IsFair dealt
dealt-IsFair = reduce-IsFair latin both_sent collect_over both_sent-IsFair

reduce-IsFair_example : IsFair dealt
reduce-IsFair_example = reduce-IsFair latin both_sent collect_over both_sent-IsFair

build_cards-perm_example : Perm (entries (build_cards latin answering)) answering.drafts
build_cards-perm_example = build_cards-perm latin answering

latin-IsCollation : IsCollation latin
latin-IsCollation a b = (ground arith, ground arith)

-- A round of "Most Likely To" with one vote in.
abbrev voting : MltState
voting =
    after (MostLikely.init latin trio round_deps undefined)
      (MostLikely.reduce (MostLikely.init latin trio round_deps undefined) vote_event)

voting-IsValid : IsValid voting
unfolding klatchr.Prelude.same klatchr.Prelude.includes
voting-IsValid =
    reduce-IsValid (MostLikely.init latin trio round_deps undefined) vote_event
      (init-IsValid latin trio round_deps undefined (refl, (refl, (refl, tt))))

reduce-IsValid_example : IsValid (after voting (MostLikely.reduce voting vote_event))
reduce-IsValid_example = reduce-IsValid voting vote_event voting-IsValid

total-tally_example : total (MostLikely.tally voting) ≡ length (MostLikely.live_votes voting)
total-tally_example = total-tally voting voting-IsValid

abbrev voted : Text → MltState
voted target = after voting (MostLikely.dispatch voting (MostLikely.cast_vote (codes "b") target))

-- Two votes at the results, and the same two with their voters exchanged.
abbrev counted : MltState
counted = record {
  phase = results;
  prompt = codes "Fame?";
  roster = codes "a" ∷ codes "b" ∷ codes "c" ∷ [];
  votes = (codes "a", codes "b") ∷ (codes "b", codes "c") ∷ [];
  left = [];
}

abbrev crossed_votes : Dict Text
crossed_votes = (codes "a", codes "c") ∷ (codes "b", codes "b") ∷ []

results_blind_example :
    MostLikely.view_for (record counted { votes = crossed_votes }) host
    ≡ MostLikely.view_for counted host
unfolding klatchr.Games.MostLikely.votes_for
results_blind_example = results_blind counted crossed_votes host refl λ id. ground arith

-- A config with three usable questions among its items.
abbrev config : Value
config = obj (
    field (codes "prompts")
      (arr (
        cons (str (codes " One? ")) (
          cons (str (codes "Two?")) (cons (str (codes "ONE?")) (cons (str (codes "Three?")) nil)))))
      end)

abbrev questions : List Text
questions = codes "One?" ∷ codes "Two?" ∷ codes "Three?" ∷ []

config_bank : valid_prompts latin config ≡ some questions
unfolding klatchr.Prelude.same klatchr.Prelude.includes klatchr.Value.field_of klatchr.Value.read
    klatchr.Strings.is_space klatchr.Strings.trim_start klatchr.Strings.trim_end
    klatchr.Strings.trim klatchr.Strings.keep_segments klatchr.Strings.bounded_text
    klatchr.Games.Prompts.items_list klatchr.Games.Prompts.has_field
    klatchr.Games.Prompts.clean_items klatchr.Games.Prompts.some_prompts klatchr.Games.Prompts.clean
    klatchr.Games.Prompts.valid_prompts
config_bank = refl

valid_prompts-IsClean_example : IsClean latin questions × (1 ≤ length questions)
valid_prompts-IsClean_example = valid_prompts-IsClean latin config questions config_bank

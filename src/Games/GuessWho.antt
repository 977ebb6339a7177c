-- ===== src/Games/GuessWho.antt =====
-- packages/games/src/guessWho: state.ts, events.ts, prompts.ts, authors.ts, scoring.ts and
-- guessWho.ts. `view.ts` is in the child `View`, the freezing of the answers in `Cards`.
pub mod State
pub mod Cards
pub mod View
pub mod Fair
pub mod Scores
pub mod Redaction
use klatchr.Prelude.{
  ℕ, suc, ◌+◌, ◌^◌, Bool, true, false, not, ◌&&◌, ◌||◌, Option, none, some, List, [], ◌∷◌, ◌++◌,
  map, filter, find, Text, codes, same, includes, Dict, lookup, insert, has, length, Result, ok,
  err, Next, kept, fresh, ◌==◌, if◌then◌else◌,
}
use klatchr.Value.{Value, read, is_record, is_text, text_of}
use klatchr.Strings.{Unicode, bounded_text}
use klatchr.Game.{Game, GameDeps, GameError, Player, Score, teams}
use klatchr.Games.{is_roster_event, strings, malformed_event, departed}
use klatchr.Games.Prompts.{Bank, choose_prompt, prompt_count}
use klatchr.Games.GuessWho.State.{
  Phase, collect, guess, reveal, AnswerCard, GwState, authors, guesses_of, tally,
}
use klatchr.Games.GuessWho.Cards.{build_cards}

abbrev pub max_answer_len : ℕ
max_answer_len = 200

-- The built-in questions (prompts.ts).
abbrev pub prompts : Bank
prompts = record {
  first = codes "What is your most controversial food opinion?";
  others =
      codes "What would you do with an extra hour every day?"
      ∷ codes "What is a small thing that makes you unreasonably happy?"
      ∷ codes "What is the worst piece of advice you have ever received?"
      ∷ codes "If you could instantly master one skill, what would it be?"
      ∷ codes "What is a hill you are willing to die on?"
      ∷ [];
}

-- The events that `reduce` dispatches on, once `isEvent` has passed them.
pub data GwEvent : Type 0 where
  submit : Text → Text → GwEvent
  skip : Text → GwEvent
  guess_author : Text → Text → Text → GwEvent
  advance : Phase → GwEvent
  player_joined : GwEvent
  player_left : Text → GwEvent

abbrev pub refuse : {S : Type 0} → Text → Result (Next S) GameError
refuse code = err (record { code = code; message = none })

unfoldable pub init : Unicode → List Player → GameDeps → Value → GwState
init u active deps config = record {
  phase = collect;
  prompt = choose_prompt u config deps.round prompts;
  roster = map (λ p. p.id) active;
  drafts = [];
  skipped = [];
  cards = [];
  guesses = [];
  left = [];
  salt = deps.scaled_random (2 ^ 32);
}

abbrev pub type_is : Value → Text → Bool
type_is event kind = is_text (read event (codes "type")) kind

unfoldable pub is_event : Value → Bool
is_event event =
    is_record event
    && (if type_is event (codes "submit")
        then strings event (codes "playerId" ∷ codes "text" ∷ [])
        else if type_is event (codes "skip")
        then strings event (codes "playerId" ∷ [])
        else if type_is event (codes "guess")
        then strings event (codes "playerId" ∷ codes "cardId" ∷ codes "author" ∷ [])
        else if type_is event (codes "advance")
        then is_text (read event (codes "from")) (codes "collect")
          || is_text (read event (codes "from")) (codes "guess")
        else is_roster_event event)

-- The event that a well-formed value stands for.
unfoldable pub event_of : Value → GwEvent
event_of event =
    if type_is event (codes "submit")
    then submit (text_of (read event (codes "playerId"))) (text_of (read event (codes "text")))
    else if type_is event (codes "skip")
    then skip (text_of (read event (codes "playerId")))
    else if type_is event (codes "guess")
    then guess_author (text_of (read event (codes "playerId")))
        (text_of (read event (codes "cardId"))) (text_of (read event (codes "author")))
    else if type_is event (codes "advance")
    then advance (if is_text (read event (codes "from")) (codes "collect") then collect else guess)
    else if type_is event (codes "playerJoined")
    then player_joined
    else player_left (text_of (read event (codes "id")))

unfoldable pub same_phase : Phase → Phase → Bool
same_phase collect collect = true
same_phase guess guess = true
same_phase reveal reveal = true
same_phase a b = false

unfoldable pub collect_guard : GwState → Text → Option Text
collect_guard s id =
    if not (same_phase s.phase collect)
    then some (codes "WRONG_PHASE")
    else if not (includes s.roster id)
    then some (codes "NOT_PLAYING")
    else none

unfoldable pub on_submit : Unicode → GwState → Text → Text → Result (Next GwState) GameError
on_submit u s id raw = elim (collect_guard s id) [
  | some code ↦ refuse code
  | none ↦
      let text = bounded_text u raw max_answer_len in
      if length text == 0
      then refuse (codes "EMPTY_ANSWER")
      else ok (fresh (record s { drafts = insert id text s.drafts }))
]

unfoldable pub on_skip : GwState → Text → Result (Next GwState) GameError
on_skip s id = elim (collect_guard s id) [
  | some code ↦ refuse code
  | none ↦
      if includes s.skipped id
      then ok kept
      else ok (fresh (record s { skipped = s.skipped ++ id ∷ [] }))
]

unfoldable pub on_advance : Unicode → GwState → Phase → Result (Next GwState) GameError
on_advance u s from =
    if not (same_phase from s.phase)
    then ok kept
    else if same_phase s.phase collect
    then ok (fresh (record s { phase = guess; cards = build_cards u s }))
    else ok (fresh (record s { phase = reveal }))

unfoldable pub on_guess : GwState → Text → Text → Text → Result (Next GwState) GameError
on_guess s id card_id author =
    if not (same_phase s.phase guess)
    then refuse (codes "WRONG_PHASE")
    else if not (includes s.roster id)
    then refuse (codes "NOT_PLAYING")
    else elim (find (λ c. same c.id card_id) s.cards) [
      | none ↦ refuse (codes "NO_SUCH_CARD")
      | some card ↦
          if same card.author_id id
          then refuse (codes "OWN_CARD")
          else if not (includes (authors s) author)
          then refuse (codes "NOT_A_PLAYER")
          else ok (
              fresh (record s {
                guesses = insert id (insert card_id author (guesses_of s.guesses id)) s.guesses;
              }))
    ]

unfoldable pub dispatch : Unicode → GwState → GwEvent → Result (Next GwState) GameError
dispatch u s (submit id text) = on_submit u s id text
dispatch u s (skip id) = on_skip s id
dispatch u s (guess_author id card_id author) = on_guess s id card_id author
dispatch u s (advance from) = on_advance u s from
dispatch u s player_joined = ok kept
dispatch u s (player_left id) = ok (departed s.roster s.left (λ left. record s { left = left }) id)

unfoldable pub reduce : Unicode → GwState → Value → Result (Next GwState) GameError
reduce u s event =
    if not (is_event event) then err malformed_event else dispatch u s (event_of event)

unfoldable pub is_complete : GwState → Bool
is_complete s = same_phase s.phase reveal

-- ===== src/Games/MostLikely.antt =====
-- packages/games/src/mostLikelyTo: state.ts, events.ts, prompts.ts, scoring.ts, mostLikelyTo.ts and
-- view.ts.
pub mod Tally
pub mod Secret
use klatchr.Prelude.{
  ℕ, suc, ◌+◌, ◌-◌, Bool, true, false, not, ◌&&◌, ◌||◌, Option, none, some, List, [], ◌∷◌, ◌++◌,
  map, filter, Text, codes, same, includes, Dict, keys, values, lookup, insert, has, length, Result,
  ok, err, Next, kept, fresh, if◌then◌else◌,
}
use klatchr.Value.{Value, read, is_record, is_text, text_of}
use klatchr.Strings.{Unicode}
use klatchr.Game.{GameDeps, GameError, Player, Score, Viewer, player, host}
use klatchr.Games.{is_roster_event, strings, malformed_event, departed}
use klatchr.Games.Prompts.{Bank, choose_prompt}

pub data Phase : Type 0 where
  vote results : Phase

pub record MltState : Type 0 where
  pub phase : Phase
  pub prompt : Text
  pub roster : List Text
  -- Voter, then target.
  pub votes : Dict Text
  pub left : List Text

-- The built-in questions (prompts.ts).
abbrev pub prompts : Bank
prompts = record {
  first = codes "Who is most likely to survive a zombie apocalypse?";
  others =
      codes "Who is most likely to become internet famous?"
      ∷ codes "Who is most likely to forget their own birthday?"
      ∷ codes "Who is most likely to start a successful side hustle?"
      ∷ codes "Who is most likely to talk their way out of a speeding ticket?"
      ∷ codes "Who is most likely to move to another country on a whim?"
      ∷ [];
}

pub data MltEvent : Type 0 where
  cast_vote : Text → Text → MltEvent
  advance : MltEvent
  player_joined : MltEvent
  player_left : Text → MltEvent

abbrev pub refuse : {S : Type 0} → Text → Result (Next S) GameError
refuse code = err (record { code = code; message = none })

unfoldable pub init : Unicode → List Player → GameDeps → Value → MltState
init u active deps config = record {
  phase = vote;
  prompt = choose_prompt u config deps.round prompts;
  roster = map (λ p. p.id) active;
  votes = [];
  left = [];
}

abbrev pub type_is : Value → Text → Bool
type_is event kind = is_text (read event (codes "type")) kind

unfoldable pub is_event : Value → Bool
is_event event =
    is_record event
    && (if type_is event (codes "vote")
        then strings event (codes "playerId" ∷ codes "target" ∷ [])
        else if type_is event (codes "advance")
        then is_text (read event (codes "from")) (codes "vote")
        else is_roster_event event)

-- The event that a well-formed value stands for.
unfoldable pub event_of : Value → MltEvent
event_of event =
    if type_is event (codes "vote")
    then cast_vote (text_of (read event (codes "playerId"))) (text_of (read event (codes "target")))
    else if type_is event (codes "advance")
    then advance
    else if type_is event (codes "playerJoined")
    then player_joined
    else player_left (text_of (read event (codes "id")))

unfoldable pub is_vote : Phase → Bool
is_vote vote = true
is_vote results = false

unfoldable pub on_vote : MltState → Text → Text → Result (Next MltState) GameError
on_vote s id target =
    if not (is_vote s.phase)
    then refuse (codes "WRONG_PHASE")
    else if not (includes s.roster id)
    then refuse (codes "NOT_PLAYING")
    else if not (includes s.roster target) || includes s.left target
    then refuse (codes "NOT_A_PLAYER")
    else ok (fresh (record s { votes = insert id target s.votes }))

-- A well-formed advance is from `vote`, so that it is of another phase exactly at the results.
unfoldable pub on_advance : MltState → Result (Next MltState) GameError
on_advance s = if not (is_vote s.phase) then ok kept else ok (fresh (record s { phase = results }))

unfoldable pub dispatch : MltState → MltEvent → Result (Next MltState) GameError
dispatch s (cast_vote id target) = on_vote s id target
dispatch s advance = on_advance s
dispatch s player_joined = ok kept
dispatch s (player_left id) = ok (departed s.roster s.left (λ left. record s { left = left }) id)

unfoldable pub reduce : MltState → Value → Result (Next MltState) GameError
reduce s event = if not (is_event event) then err malformed_event else dispatch s (event_of event)

unfoldable pub is_complete : MltState → Bool
is_complete s = not (is_vote s.phase)

unfoldable pub candidates : MltState → List Text
candidates s = filter (λ id. not (includes s.left id)) s.roster

unfoldable pub live_votes : MltState → Dict Text
live_votes s = filter (λ e. not (includes s.left e.1)) s.votes

-- How often a player is named: `targets.filter((target) => target === id).length`.
unfoldable pub votes_for : Text → List Text → ℕ
votes_for id targets = length (filter (λ target. same target id) targets)

unfoldable pub tally : MltState → List Score
tally s =
    map (λ id. record { player_id = id; points = votes_for id (values (live_votes s)) })
      (candidates s)

pub record Progress : Type 0 where
  pub voted_count : ℕ
  pub total : ℕ

pub data MltView : Type 0 where
  vote_host : (prompt : Text) (voted : List Text) (progress : Progress) → MltView
  vote_player :
      (prompt : Text) (candidates : List Text) (you_voted : Bool) (your_vote : Option Text)
      (progress : Progress)
      → MltView
  results_view : (prompt : Text) (tally : List Score) → MltView

unfoldable pub progress : MltState → Progress
progress s = record {
  voted_count = length (keys s.votes);
  total = length s.roster - length (filter (λ id. not (has id s.votes)) s.left);
}

unfoldable pub vote_view : MltState → Viewer → MltView
vote_view s host = vote_host s.prompt (keys s.votes) (progress s)
vote_view s (player id) =
    vote_player s.prompt (candidates s) (includes (keys s.votes) id) (lookup id s.votes)
      (progress s)

unfoldable pub view_for : MltState → Viewer → MltView
view_for s viewer = if is_vote s.phase then vote_view s viewer else results_view s.prompt (tally s)

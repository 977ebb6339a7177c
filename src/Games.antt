-- ===== src/Games.antt =====
-- packages/games/src/eventGuard.ts and roster.ts: what every game shares. Events reach a game as
-- `unknown`, so it checks their shape before it reads a field.
pub mod Prompts
pub mod GuessWho
pub mod MostLikely
pub mod Catalogue
use klatchr.Prelude.{
  Bool, true, false, not, ◌&&◌, List, [], ◌∷◌, ◌++◌, every, Text, codes, includes, Next, kept,
  fresh, if◌then◌else◌, none,
}
use klatchr.Value.{Value, read, is_record, is_string, is_boolean, is_text}
use klatchr.Game.{GameError}

unfoldable pub is_roster_event : Value → Bool
is_roster_event event =
    if is_text (read event (codes "type")) (codes "playerLeft")
    then is_string (read event (codes "id"))
    else if is_text (read event (codes "type")) (codes "playerJoined")
    then is_record (read event (codes "player"))
      && (is_string (read (read event (codes "player")) (codes "id"))
          && (is_string (read (read event (codes "player")) (codes "nickname"))
              && (is_boolean (read (read event (codes "player")) (codes "joinedDuringGame"))
                  && is_boolean (read (read event (codes "player")) (codes "spectator")))))
    else false

-- Every named field is a string.
unfoldable pub strings : Value → List Text → Bool
strings event names = every (λ key. is_string (read event key)) names

abbrev pub malformed_event : GameError
malformed_event = record { code = codes "MALFORMED_EVENT"; message = none }

-- A seated player who leaves is recorded once; `with_left` is the state with another `left`.
unfoldable pub departed : {S : Type 0} → List Text → List Text → (List Text → S) → Text → Next S
departed roster left with_left id =
    if includes roster id && not (includes left id)
    then fresh (with_left (left ++ id ∷ []))
    else kept

-- ===== src/Games/Prompts.antt =====
-- packages/games/src/promptConfig.ts: the questions of a session. `validPrompts` remembers what it
-- made of a config object, which nobody changes, so that it is a function of the config.
pub mod Laws
use klatchr.Prelude.{
  ℕ, suc, ◌+◌, ◌-◌, ◌*◌, Bool, true, false, ◌&&◌, ◌||◌, Option, none, some, List, [], ◌∷◌, ◌++◌,
  Text, codes, same, includes, length, take, get_elem?, leb, ltb, ◌==◌, if◌then◌else◌,
}
use klatchr.Value.{Value, Items, Fields, str, arr, obj, nil, cons, end, field, read}
use klatchr.Strings.{Unicode, bounded_text}

abbrev pub max_prompts : ℕ
max_prompts = 50

abbrev pub max_len : ℕ
max_len = 200

abbrev pub max_scan : ℕ
max_scan = max_prompts * 4

pub record PromptPack : Type 0 where
  pub id : Text
  pub name : Text
  pub prompts : List Text

-- A `readonly [string, ...string[]]`.
pub record Bank : Type 0 where
  pub first : Text
  pub others : List Text

abbrev pub bank_list : Bank → List Text
bank_list b = b.first ∷ b.others

unfoldable pub items_list : Items → List Value
items_list nil = []
items_list (cons v xs) = v ∷ items_list xs

unfoldable pub has_field : Text → Fields → Bool
has_field k end = false
has_field k (field j v fs) = same j k || has_field k fs

-- The loop of `clean`: the items left, the keys seen and the prompts kept so far.
unfoldable pub clean_items : Unicode → List Value → List Text → List Text → List Text
clean_items u [] seen cleaned = cleaned
clean_items u (str item ∷ rest) seen cleaned =
    let text = bounded_text u item max_len in
    let key = u.lower text in
    let skipped = clean_items u rest seen cleaned in
    let further = clean_items u rest (seen ++ key ∷ []) (cleaned ++ text ∷ []) in
    if (length text == 0) || includes seen key
    then skipped
    else if leb max_prompts (length cleaned + 1)
    then cleaned ++ text ∷ []
    else further
clean_items u (v ∷ rest) seen cleaned = clean_items u rest seen cleaned

unfoldable pub some_prompts : List Text → Option (List Text)
some_prompts [] = none
some_prompts (p ∷ ps) = some (p ∷ ps)

unfoldable pub clean : Unicode → Value → Option (List Text)
clean u (arr xs) = some_prompts (clean_items u (take max_scan (items_list xs)) [] [])
clean u v = none

unfoldable pub valid_prompts : Unicode → Value → Option (List Text)
valid_prompts u (obj fs) =
    if has_field (codes "prompts") fs then clean u (read (obj fs) (codes "prompts")) else none
valid_prompts u v = none

-- The bank of a session: the authored set, or the built-in one.
unfoldable pub session_bank : Unicode → Value → Bank → List Text
session_bank u config builtin = elim (valid_prompts u config) [
  | some prompts ↦ prompts
  | none ↦ bank_list builtin
]

-- `bank[round - 1]`; the index -1 of round 0 is no element.
unfoldable pub prompt_at : List Text → ℕ → Option Text
prompt_at bank round = if round == 0 then none else get_elem? bank (round - 1)

unfoldable pub choose_prompt : Unicode → Value → ℕ → Bank → Text
choose_prompt u config round builtin = elim (prompt_at (session_bank u config builtin) round) [
  | some prompt ↦ prompt
  | none ↦ builtin.first
]

unfoldable pub prompt_count : Unicode → Value → Bank → ℕ
prompt_count u config builtin = elim (valid_prompts u config) [
  | some prompts ↦ length prompts
  | none ↦ length (bank_list builtin)
]

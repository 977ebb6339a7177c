-- ===== src/Games/GuessWho/Cards.antt =====
-- The freezing of the answers into cards: `buildCards` and `fnv1a` of
-- packages/games/src/guessWho/guessWho.ts.
pub mod Order
use Prim.Native.Nat.{bit_xor, Ordering}
use klatchr.Prelude.{
  ℕ, zero, suc, ◌+◌, ◌*◌, ◌/◌, ◌%◌, ◌^◌, Bool, true, false, not, List, [], ◌∷◌, ◌++◌, Text, codes,
  Dict, leb, ◌==◌, if◌then◌else◌,
}
use klatchr.Strings.{Unicode}
use klatchr.Games.GuessWho.State.{AnswerCard, GwState}

-- The decimal digits of a number below 10 ^ fuel, as a template string prints it.
unfoldable pub decimal_from : ℕ → ℕ → Text
decimal_from zero n = []
decimal_from (suc fuel) n =
    let higher = decimal_from fuel (n / 10) in
    if n / 10 == 0 then (48 + n % 10) ∷ [] else higher ++ (48 + n % 10) ∷ []

-- Ten digits are enough for a number below 2 ^ 32.
unfoldable pub decimal : ℕ → Text
decimal n = decimal_from 10 n

-- `Math.imul(hash ^ unit, 0x01000193) >>> 0`.
unfoldable pub fnv_step : ℕ → ℕ → ℕ
fnv_step hash unit = (bit_xor hash unit * 0x01000193) % 2 ^ 32

unfoldable pub fnv_from : ℕ → Text → ℕ
fnv_from hash [] = hash
fnv_from hash (unit ∷ text) = fnv_from (fnv_step hash unit) text

unfoldable pub fnv1a : Text → ℕ
fnv1a text = fnv_from 0x811c9dc5 text

-- The hash that breaks a tie between equal answers.
unfoldable pub tie : ℕ → Text → ℕ
tie salt id = fnv1a (decimal salt ++ codes ":" ++ id)

-- Whether the comparison function of the sort puts `b` strictly before `a`.
unfoldable pub goes_after : Unicode → ℕ → Text × Text → Text × Text → Bool
goes_after u salt a b = elim (u.compare_text a.1 b.1) [
  | Ordering.lt ↦ false
  | Ordering.eq ↦ not (leb (tie salt a.0) (tie salt b.0))
  | Ordering.gt ↦ true
]

-- `Array.prototype.sort` is stable: an entry goes in front of what strictly follows it.
unfoldable pub insert_entry : Unicode → ℕ → Text × Text → Dict Text → Dict Text
insert_entry u salt e [] = e ∷ []
insert_entry u salt e (f ∷ sorted) =
    if goes_after u salt e f then f ∷ insert_entry u salt e sorted else e ∷ f ∷ sorted

-- The last entry is inserted first, so that equal entries keep their order.
unfoldable pub sort_entries : Unicode → ℕ → Dict Text → Dict Text
sort_entries u salt [] = []
sort_entries u salt (e ∷ entries) = insert_entry u salt e (sort_entries u salt entries)

unfoldable pub number_cards : ℕ → Dict Text → List AnswerCard
number_cards i [] = []
number_cards i ((author, text) ∷ entries) =
    record { id = codes "c" ++ decimal i; text = text; author_id = author }
    ∷ number_cards (suc i) entries

unfoldable pub build_cards : Unicode → GwState → List AnswerCard
build_cards u s = number_cards 0 (sort_entries u s.salt s.drafts)

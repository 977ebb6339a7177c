-- ===== src/Games/GuessWho/Cards/Order.antt =====
-- The cards are the answers, each once, in an order made of the texts and salted hashes.
use mathlib.Core.List.{Perm}
use mathlib.Core.List.Perm
use Prim.Native.Nat.{Ordering}
use native.Mathlib.Nat.{pow-suc, pow-zero}
use klatchr.Prelude.{
  ℕ, zero, suc, ◌+◌, ◌-◌, ◌*◌, ◌/◌, ◌%◌, ◌^◌, ◌≤◌, ◌<◌, ◌≡◌, refl, sym, ap, ◌∙◌, subst, true, false,
  List, [], ◌∷◌, ◌++◌, map, Text, codes, Dict, length, same, same_iff, includes, Distinct, arith,
  ◌==◌, ==_iff, Bool-cases, inl, inr,
}
use klatchr.Strings.{Unicode}
use klatchr.Games.GuessWho.State.{AnswerCard, GwState}
use klatchr.Games.GuessWho.Cards.{
  decimal_from, decimal, goes_after, insert_entry, sort_entries, number_cards, build_cards,
}

-- The answers on the cards, by author.
abbrev pub entries : List AnswerCard → Dict Text
entries cards = map (λ c. (c.author_id, c.text)) cards

entries-number_cards : (i : ℕ) (es : Dict Text) → entries (number_cards i es) ≡ es
unfolding number_cards
entries-number_cards i [] = refl
entries-number_cards i ((author, text) ∷ es) =
    ap (◌∷◌ (author, text)) (entries-number_cards (suc i) es)

insert_entry-perm :
    (u : Unicode) (salt : ℕ) (e : Text × Text) (es : Dict Text)
    → Perm (insert_entry u salt e es) (e ∷ es)
unfolding insert_entry
insert_entry-perm u salt e [] = Perm.refl (e ∷ [])
insert_entry-perm u salt e (f ∷ es) = elim (Bool-cases (goes_after u salt e f)) [
  | inl later ↦
      rw later (Perm.trans (Perm.cons f (insert_entry-perm u salt e es)) (Perm.swap e f es))
  | inr first ↦ rw first (Perm.refl (e ∷ f ∷ es))
]

sort_entries-perm : (u : Unicode) (salt : ℕ) (es : Dict Text) → Perm (sort_entries u salt es) es
unfolding sort_entries
sort_entries-perm u salt [] = Perm.nil
sort_entries-perm u salt (e ∷ es) =
    Perm.trans (insert_entry-perm u salt e (sort_entries u salt es))
      (Perm.cons e (sort_entries-perm u salt es))

-- The cards carry exactly the answers that were given, each once and with its author.
pub build_cards-perm : (u : Unicode) (s : GwState) → Perm (entries (build_cards u s)) s.drafts
unfolding build_cards
build_cards-perm u s =
    subst (λ es. Perm es s.drafts) (sym (entries-number_cards 0 (sort_entries u s.salt s.drafts)))
      (sort_entries-perm u s.salt s.drafts)

-- An entry does not strictly follow the head of what comes behind it.
abbrev pub Leads : Unicode → ℕ → Text × Text → Dict Text → Type 0
Leads u salt e [] = Unit {0}
Leads u salt e (f ∷ es) = goes_after u salt e f ≡ false

abbrev pub IsOrdered : Unicode → ℕ → Dict Text → Type 0
IsOrdered u salt [] = Unit {0}
IsOrdered u salt (e ∷ es) = Leads u salt e es × IsOrdered u salt es

-- The comparison of a sort: no two entries strictly follow each other.
abbrev pub IsAsymmetric : Unicode → ℕ → Type 0
IsAsymmetric u salt =
    (e f : Text × Text) → goes_after u salt e f ≡ true → goes_after u salt f e ≡ false

insert_entry-Leads :
    (u : Unicode) (salt : ℕ) (e f : Text × Text) (es : Dict Text)
    → goes_after u salt f e ≡ false
    → Leads u salt f es
    → Leads u salt f (insert_entry u salt e es)
unfolding insert_entry
insert_entry-Leads u salt e f [] h l = h
insert_entry-Leads u salt e f (g ∷ es) h l = elim (Bool-cases (goes_after u salt e g)) [
  | inl later ↦ rw later l
  | inr first ↦ rw first h
]

insert_entry-IsOrdered :
    (u : Unicode) (salt : ℕ) (e : Text × Text) (es : Dict Text)
    → IsAsymmetric u salt
    → IsOrdered u salt es
    → IsOrdered u salt (insert_entry u salt e es)
unfolding insert_entry
insert_entry-IsOrdered u salt e [] asym h = (tt, tt)
insert_entry-IsOrdered u salt e (f ∷ es) asym h = elim (Bool-cases (goes_after u salt e f)) [
  | inl later ↦ rw later (
    insert_entry-Leads u salt e f es (asym e f later) h.0,
    insert_entry-IsOrdered u salt e es asym h.1,
  )
  | inr first ↦ rw first (first, h)
]

sort_entries-IsOrdered :
    (u : Unicode) (salt : ℕ) (es : Dict Text)
    → IsAsymmetric u salt
    → IsOrdered u salt (sort_entries u salt es)
unfolding sort_entries
sort_entries-IsOrdered u salt [] asym = tt
sort_entries-IsOrdered u salt (e ∷ es) asym =
    insert_entry-IsOrdered u salt e (sort_entries u salt es) asym
      (sort_entries-IsOrdered u salt es asym)

-- The collation is antisymmetric: it turns round with its arguments.
abbrev pub IsCollation : Unicode → Type 0
IsCollation u =
    (a b : Text)
    → (u.compare_text a b ≡ Ordering.gt → u.compare_text b a ≡ Ordering.lt)
      × (u.compare_text a b ≡ Ordering.eq → u.compare_text b a ≡ Ordering.eq)

goes_after-IsAsymmetric : (u : Unicode) (salt : ℕ) → IsCollation u → IsAsymmetric u salt
unfolding goes_after
goes_after-IsAsymmetric u salt c e f h = ground (arith, (c e.1 f.1).0, (c e.1 f.1).1)

-- Where the collation turns round with its arguments, the cards stand in the order of their texts,
-- and cards of equal text in the order of their authors' salted hashes.
pub build_cards-IsOrdered :
    (u : Unicode) (s : GwState) → IsCollation u → IsOrdered u s.salt (entries (build_cards u s))
unfolding build_cards
build_cards-IsOrdered u s c =
    subst (IsOrdered u s.salt) (sym (entries-number_cards 0 (sort_entries u s.salt s.drafts)))
      (sort_entries-IsOrdered u s.salt s.drafts (goes_after-IsAsymmetric u s.salt c))

-- The number that a string of digits stands for.
value_from : ℕ → Text → ℕ
value_from n [] = n
value_from n (c ∷ t) = value_from (10 * n + (c - 48)) t

value_from-snoc :
    (n : ℕ) (t : Text) (d : ℕ) → value_from n (t ++ (48 + d) ∷ []) ≡ 10 * value_from n t + d
unfolding value_from
value_from-snoc n [] d = omega arith
value_from-snoc n (c ∷ t) d = value_from-snoc (10 * n + (c - 48)) t d

value-decimal_from : (fuel n : ℕ) → n < 10 ^ fuel → value_from 0 (decimal_from fuel n) ≡ n
unfolding decimal_from value_from
value-decimal_from zero n h = omega (arith, pow-zero 10)
value-decimal_from (suc fuel) n h = elim (Bool-cases (n / 10 == 0)) [
  | inl last ↦ rw last (omega (arith, (==_iff (n / 10) 0).0 last))
  | inr more ↦ rw more (
      value_from-snoc 0 (decimal_from fuel (n / 10)) (n % 10)
      ∙ omega (arith, value-decimal_from fuel (n / 10) (omega (arith, pow-suc 10 fuel))))
]

decimal_inj : (i j : ℕ) → i < 10 ^ 10 → j < 10 ^ 10 → decimal i ≡ decimal j → i ≡ j
unfolding decimal
decimal_inj i j hi hj e =
    sym (value-decimal_from 10 i hi) ∙ ap (value_from 0) e ∙ value-decimal_from 10 j hj

card_id : ℕ → Text
card_id i = codes "c" ++ decimal i

card_id_ne : (i j : ℕ) → i < j → j < 10 ^ 10 → same (card_id j) (card_id i) ≡ false
unfolding card_id same
card_id_ne i j h hj = ground (arith, same_iff (decimal j) (decimal i), decimal_inj j i)

number_cards-later :
    (i j : ℕ) (es : Dict Text)
    → i < j
    → j + length es ≤ 10 ^ 10
    → includes (map (λ c. c.id) (number_cards j es)) (card_id i) ≡ false
unfolding number_cards includes card_id
number_cards-later i j [] h b = refl
number_cards-later i j ((author, text) ∷ es) h b =
    ground (arith, card_id_ne i j h, number_cards-later i (suc j) es)

number_cards-Distinct :
    (j : ℕ) (es : Dict Text)
    → j + length es ≤ 10 ^ 10
    → Distinct (map (λ c. c.id) (number_cards j es))
unfolding number_cards card_id
number_cards-Distinct j [] b = tt
number_cards-Distinct j ((author, text) ∷ es) b = (
  number_cards-later j (suc j) es (omega arith) (omega arith),
  number_cards-Distinct (suc j) es (omega arith),
)

length-insert_entry :
    (u : Unicode) (salt : ℕ) (e : Text × Text) (es : Dict Text)
    → length (insert_entry u salt e es) ≡ suc (length es)
unfolding insert_entry
length-insert_entry u salt e [] = refl
length-insert_entry u salt e (f ∷ es) = ground (arith, length-insert_entry u salt e es)

length-sort_entries :
    (u : Unicode) (salt : ℕ) (es : Dict Text) → length (sort_entries u salt es) ≡ length es
unfolding sort_entries
length-sort_entries u salt [] = refl
length-sort_entries u salt (e ∷ es) =
    length-insert_entry u salt e (sort_entries u salt es) ∙ ap suc (length-sort_entries u salt es)

-- No two cards share an id, for as many answers as ten digits can number.
pub build_cards-Distinct :
    (u : Unicode) (s : GwState)
    → length s.drafts ≤ 10 ^ 10
    → Distinct (map (λ c. c.id) (build_cards u s))
unfolding build_cards
build_cards-Distinct u s b =
    number_cards-Distinct 0 (sort_entries u s.salt s.drafts)
      (omega (arith, length-sort_entries u s.salt s.drafts))

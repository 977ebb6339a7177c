-- ===== src/Games/Prompts/Laws.antt =====
-- What a cleaned set of questions is, and how a session walks it.
use mathlib.Core.List.{map-append}
use klatchr.Prelude.{
  ℕ, zero, suc, ◌+◌, ◌≤◌, ◌<◌, ◌≡◌, refl, sym, ap, ◌∙◌, subst, true, false, ◌||◌, some, List, [],
  ◌∷◌, ◌++◌, map, Text, codes, includes, same_iff, Distinct, Distinct-snoc, length, length-append,
  get_elem?, leb, leb-false→lt, ◌==◌, arith, All, All-append, Bool-cases, inl, inr, take,
}
use klatchr.Value.{Value, str, undefined, arr, obj, read}
use klatchr.Strings.{Unicode, bounded_text}
use klatchr.Strings.Bounds.{length-bounded_text-le}
use klatchr.Games.Prompts.{
  Bank, max_prompts, max_len, max_scan, clean_items, some_prompts, clean, valid_prompts,
  session_bank, prompt_at, choose_prompt, prompt_count, items_list, has_field,
}

-- A usable question: not empty, and of at most 200 characters' worth of code units.
abbrev pub IsUsable : Text → Type 0
IsUsable t = (1 ≤ length t) × (length t ≤ 2400)

-- A set of questions as a session walks it: at most 50, no two alike up to case, all usable.
pub record IsClean (u : Unicode) (ps : List Text) : Type 0 where
  pub few : length ps ≤ max_prompts
  pub different : Distinct (map u.lower ps)
  pub usable : All IsUsable ps

snoc-IsClean :
    (u : Unicode) (cleaned : List Text) (text : Text)
    → length cleaned < max_prompts
    → 1 ≤ length text
    → length text ≤ 2400
    → includes (map u.lower cleaned) (u.lower text) ≡ false
    → IsClean u cleaned
    → IsClean u (cleaned ++ text ∷ [])
snoc-IsClean u cleaned text h some_text short new v = record {
  few = omega (arith, length-append cleaned (text ∷ []));
  different =
      rw (map-append u.lower cleaned (text ∷ []))
        (Distinct-snoc (map u.lower cleaned) (u.lower text) v.different new);
  usable = All-append IsUsable cleaned (text ∷ []) v.usable ((some_text, short), tt);
}

nil-IsClean : (u : Unicode) → IsClean u []
nil-IsClean u = record { few = omega arith; different = tt; usable = tt }

clean_items-IsClean :
    (u : Unicode) (items : List Value) (cleaned : List Text)
    → length cleaned < max_prompts
    → IsClean u cleaned
    → IsClean u (clean_items u items (map u.lower cleaned) cleaned)
unfolding clean_items
clean_items-IsClean u [] cleaned h v = v
clean_items-IsClean u (str item ∷ rest) cleaned h v =
    let text = bounded_text u item max_len in
    let key = u.lower text in
    let longer = cleaned ++ text ∷ [] in
    elim (Bool-cases ((length text == 0) || includes (map u.lower cleaned) key)) [
      | inl skipped ↦ rw skipped (clean_items-IsClean u rest cleaned h v)
      | inr new ↦
          let v' : IsClean u longer =
            snoc-IsClean u cleaned text h (ground arith)
              (omega (arith, length-bounded_text-le u item max_len)) (ground arith) v in
          rw new (elim (Bool-cases (leb max_prompts (length cleaned + 1))) [
            | inl full ↦ rw full v'
            | inr room ↦ rw room (
                subst (λ seen. IsClean u (clean_items u rest seen longer))
                  (map-append u.lower cleaned (text ∷ []))
                  (clean_items-IsClean u rest longer
                    (omega (arith, length-append cleaned (text ∷ []), leb-false→lt _ _ room)) v'))
          ])
    ]
clean_items-IsClean u (undefined ∷ rest) cleaned h v = clean_items-IsClean u rest cleaned h v
clean_items-IsClean u (x ∷ rest) cleaned h v = clean_items-IsClean u rest cleaned h v

some_prompts-eq : (qs ps : List Text) → some_prompts qs ≡ some ps → (qs ≡ ps) × (1 ≤ length ps)
unfolding some_prompts
some_prompts-eq [] ps h = absurd (cc)
some_prompts-eq (q ∷ qs) ps h = ground arith

clean-IsClean :
    (u : Unicode) (raw : Value) (ps : List Text)
    → clean u raw ≡ some ps
    → IsClean u ps × (1 ≤ length ps)
unfolding clean
clean-IsClean u (arr xs) ps h =
    let (made, some_left) =
      some_prompts-eq (clean_items u (take max_scan (items_list xs)) [] []) ps h in
    (
      subst (IsClean u) made
          (clean_items-IsClean u (take max_scan (items_list xs)) [] (omega arith) (nil-IsClean u)),
      some_left,
    )
clean-IsClean u undefined ps h = absurd (cc)
clean-IsClean u v ps h = absurd (cc)

-- Whatever config a host sends, the questions that are read out of it are at most 50, all of them
-- usable, and no two of them alike up to case; an empty set is never read.
pub valid_prompts-IsClean :
    (u : Unicode) (config : Value) (ps : List Text)
    → valid_prompts u config ≡ some ps
    → IsClean u ps × (1 ≤ length ps)
unfolding valid_prompts
valid_prompts-IsClean u (obj fs) ps h = elim (Bool-cases (has_field (codes "prompts") fs)) [
  | inl there ↦ clean-IsClean u (read (obj fs) (codes "prompts")) ps (ground arith)
  | inr absent ↦ absurd (ground arith)
]
valid_prompts-IsClean u undefined ps h = absurd (cc)
valid_prompts-IsClean u v ps h = absurd (cc)

-- The i-th question of a clean set is another one than any later.
includes-get : (xs : List Text) (i : ℕ) (x : Text) → get_elem? xs i ≡ some x → includes xs x ≡ true
unfolding includes
includes-get [] i x h = absurd (cc)
includes-get (y ∷ xs) zero x h = ground (arith, same_iff y x)
includes-get (y ∷ xs) (suc i) x h = ground (arith, includes-get xs i x h)

get_elem?-map :
    (f : Text → Text) (xs : List Text) (i : ℕ) (x : Text)
    → get_elem? xs i ≡ some x
    → get_elem? (map f xs) i ≡ some (f x)
get_elem?-map f [] i x h = absurd (cc)
get_elem?-map f (y ∷ xs) zero x h = cc
get_elem?-map f (y ∷ xs) (suc i) x h = get_elem?-map f xs i x h

Distinct-get :
    (xs : List Text) (i j : ℕ) (x : Text)
    → Distinct xs
    → get_elem? xs i ≡ some x
    → get_elem? xs j ≡ some x
    → i ≡ j
Distinct-get [] i j x d hi hj = absurd (cc)
Distinct-get (y ∷ xs) zero zero x d hi hj = refl
Distinct-get (y ∷ xs) zero (suc j) x d hi hj = absurd (ground (arith, includes-get xs j x hj))
Distinct-get (y ∷ xs) (suc i) zero x d hi hj = absurd (ground (arith, includes-get xs i x hi))
Distinct-get (y ∷ xs) (suc i) (suc j) x d hi hj = ap suc (Distinct-get xs i j x d.1 hi hj)

get_elem?-below : (xs : List Text) (i : ℕ) → i < length xs → (x : Text) × (get_elem? xs i ≡ some x)
get_elem?-below [] i h = absurd (omega arith)
get_elem?-below (x ∷ xs) zero h = (x, refl)
get_elem?-below (x ∷ xs) (suc i) h = get_elem?-below xs i (omega arith)

prompt_at-suc : (bank : List Text) (r : ℕ) → prompt_at bank (suc r) ≡ get_elem? bank r
unfolding prompt_at
prompt_at-suc bank r = ground arith

-- The count that ends a session is the length of the set that the session walks.
pub prompt_count-length :
    (u : Unicode) (config : Value) (builtin : Bank)
    → prompt_count u config builtin ≡ length (session_bank u config builtin)
unfolding prompt_count session_bank
prompt_count-length u config builtin = ground arith

-- Within the count a round's question is the one of its place in the set.
pub choose_prompt-get :
    (u : Unicode) (config : Value) (r : ℕ) (builtin : Bank)
    → r < prompt_count u config builtin
    → get_elem? (session_bank u config builtin) r ≡ some (choose_prompt u config (suc r) builtin)
unfolding choose_prompt
choose_prompt-get u config r builtin h =
    let bank = session_bank u config builtin in
    let (x, found) =
      get_elem?-below bank r (subst (λ n. r < n) (prompt_count-length u config builtin) h) in
    ground (arith, found, prompt_at-suc bank r)

authored_bank :
    (u : Unicode) (config : Value) (ps : List Text) (builtin : Bank)
    → valid_prompts u config ≡ some ps
    → session_bank u config builtin ≡ ps
unfolding session_bank
authored_bank u config ps builtin e = ground arith

-- A session over a host's set asks no question twice, not even in another case: two rounds of it
-- whose questions agree up to case are the same round.
pub choose_prompt_once :
    (u : Unicode) (config : Value) (ps : List Text) (builtin : Bank) (r t : ℕ)
    → valid_prompts u config ≡ some ps
    → 1 ≤ r
    → r ≤ prompt_count u config builtin
    → 1 ≤ t
    → t ≤ prompt_count u config builtin
    → u.lower (choose_prompt u config r builtin) ≡ u.lower (choose_prompt u config t builtin)
    → r ≡ t
choose_prompt_once u config ps builtin zero t e r1 rn t1 tn alike = absurd (omega arith)
choose_prompt_once u config ps builtin (suc r) zero e r1 rn t1 tn alike = absurd (omega arith)
choose_prompt_once u config ps builtin (suc r) (suc t) e r1 rn t1 tn alike =
    let asked = λ (n : ℕ). choose_prompt u config (suc n) builtin in
    let v = (valid_prompts-IsClean u config ps e).0 in
    let at_r = get_elem?-map u.lower ps r (asked r) (
      subst (λ bank. get_elem? bank r ≡ some (asked r)) (authored_bank u config ps builtin e)
        (choose_prompt-get u config r builtin (omega arith))) in
    let at_t = get_elem?-map u.lower ps t (asked t) (
      subst (λ bank. get_elem? bank t ≡ some (asked t)) (authored_bank u config ps builtin e)
        (choose_prompt-get u config t builtin (omega arith))) in
    ap suc (
      Distinct-get (map u.lower ps) r t (u.lower (asked r)) v.different at_r
        (at_t ∙ ap some (sym alike)))

-- ===== src/Web/PromptSet/Laws.antt =====
-- What every list of questions that a host has put together keeps.
use klatchr.Prelude.{
  if_true, if_false, ℕ, zero, suc, ◌≡◌, ◌≤◌, Bool, false, not, ◌&&◌, ◌||◌, List, [], ◌∷◌, ◌++◌, map,
  filter, every, take, length, length-take-le, ltb, Text, same_iff, All, arith, refl, if_keeps,
  subst, sym, Bool-cases, inl, inr,
}
use klatchr.Strings.{Unicode, trim, bounded_text}
use klatchr.Games.Prompts.{max_prompts, max_len}
use klatchr.Web.PromptSet.{
  Item, norm, has_item, commit, additions, toggle_pack, in_pack, remove_at, remove, add_custom,
  Edit, toggles, removes, adds, edit, edit_all,
}

-- No two items ask the same, but for case and the spaces around.
abbrev pub NoTwins : Unicode → List Item → Type 0
NoTwins u [] = Unit {0}
NoTwins u (item ∷ items) = (has_item u items item.text ≡ false) × NoTwins u items

-- The rows of a pack's questions.
unfoldable pub rows : Text → List Text → List Item
rows name prompts = map (λ t. record { text = t; source = name }) prompts

module _ (u : Unicode) where
  has_item-filter :
      (p : Item → Bool) (items : List Item) (t : Text)
      → has_item u items t ≡ false
      → has_item u (filter p items) t ≡ false
  unfolding has_item
  has_item-filter p [] t h = h
  has_item-filter p (item ∷ items) t h = ground (arith, has_item-filter p items t)

  filter-NoTwins :
      (p : Item → Bool) (items : List Item) → NoTwins u items → NoTwins u (filter p items)
  filter-NoTwins p [] d = tt
  filter-NoTwins p (item ∷ items) d =
      if_keeps (NoTwins u) (p item) (item ∷ filter p items) (filter p items)
        (has_item-filter p items item.text d.0, filter-NoTwins p items d.1)
        (filter-NoTwins p items d.1)

  has_item-take :
      (n : ℕ) (items : List Item) (t : Text)
      → has_item u items t ≡ false
      → has_item u (take n items) t ≡ false
  unfolding has_item
  has_item-take zero items t h = refl
  has_item-take (suc n) [] t h = h
  has_item-take (suc n) (item ∷ items) t h = ground (arith, has_item-take n items t)

  take-NoTwins : (n : ℕ) (items : List Item) → NoTwins u items → NoTwins u (take n items)
  take-NoTwins zero items d = tt
  take-NoTwins (suc n) [] d = tt
  take-NoTwins (suc n) (item ∷ items) d =
      (has_item-take n items item.text d.0, take-NoTwins n items d.1)

  has_item-append :
      (items more : List Item) (t : Text)
      → has_item u (items ++ more) t ≡ (has_item u items t || has_item u more t)
  unfolding has_item
  has_item-append [] more t = refl
  has_item-append (item ∷ items) more t = ground (arith, has_item-append items more t)

  -- What the first list does not have.
  abbrev New : List Item → List Item → Type 0
  New items more = All (λ i. has_item u items i.text ≡ false) more

  New-head :
      (item : Item) (items more : List Item)
      → New (item ∷ items) more
      → has_item u more item.text ≡ false
  unfolding has_item
  New-head item items [] n = refl
  New-head item items (m ∷ more) n = ground (
    arith,
    New-head item items more n.1,
    n.0,
    same_iff (norm u item.text) (norm u m.text),
    same_iff (norm u m.text) (norm u item.text),
  )

  New-tail : (item : Item) (items more : List Item) → New (item ∷ items) more → New items more
  unfolding has_item
  New-tail item items [] n = tt
  New-tail item items (m ∷ more) n = (ground (arith, n.0), New-tail item items more n.1)

  append-NoTwins :
      (items more : List Item)
      → NoTwins u items
      → NoTwins u more
      → New items more
      → NoTwins u (items ++ more)
  append-NoTwins [] more d e n = e
  append-NoTwins (item ∷ items) more d e n = (
    ground (arith, has_item-append items more item.text, d.0, New-head item items more n),
    append-NoTwins items more d.1 e (New-tail item items more n),
  )

  remove_at-has_item :
      (i : ℕ) (items : List Item) (t : Text)
      → has_item u items t ≡ false
      → has_item u (remove_at i items) t ≡ false
  unfolding has_item remove_at
  remove_at-has_item i [] t h = h
  remove_at-has_item zero (item ∷ items) t h = ground arith
  remove_at-has_item (suc i) (item ∷ items) t h = ground (arith, remove_at-has_item i items t)

  remove_at-NoTwins : (i : ℕ) (items : List Item) → NoTwins u items → NoTwins u (remove_at i items)
  unfolding remove_at
  remove_at-NoTwins i [] d = tt
  remove_at-NoTwins zero (item ∷ items) d = d.1
  remove_at-NoTwins (suc i) (item ∷ items) d =
      (remove_at-has_item i items item.text d.0, remove_at-NoTwins i items d.1)

  has_item-additions :
      (name : Text) (q : Text → Bool) (prompts : List Text) (t : Text)
      → has_item u (rows name prompts) t ≡ false
      → has_item u (rows name (filter q prompts)) t ≡ false
  unfolding has_item rows
  has_item-additions name q [] t h = h
  has_item-additions name q (p ∷ prompts) t h = ground (arith, has_item-additions name q prompts t)

  rows-NoTwins :
      (name : Text) (q : Text → Bool) (prompts : List Text)
      → NoTwins u (rows name prompts)
      → NoTwins u (rows name (filter q prompts))
  unfolding rows
  rows-NoTwins name q [] d = tt
  rows-NoTwins name q (p ∷ prompts) d =
      if_keeps (λ ps. NoTwins u (rows name ps)) (q p) (p ∷ filter q prompts) (filter q prompts)
        (has_item-additions name q prompts p d.0, rows-NoTwins name q prompts d.1)
        (rows-NoTwins name q prompts d.1)

  additions-New :
      (items : List Item) (name : Text) (prompts : List Text)
      → New items
          (rows name (filter (λ p. ltb 0 (length (trim p)) && not (has_item u items p)) prompts))
  unfolding rows
  additions-New items name [] = tt
  additions-New items name (p ∷ prompts) =
      elim (Bool-cases (ltb 0 (length (trim p)) && not (has_item u items p))) [
        | inl new ↦
            subst (λ ps. New items (rows name ps)) (sym (if_true _ _ _ new))
              (ground arith, additions-New items name prompts)
        | inr old ↦
            subst (λ ps. New items (rows name ps)) (sym (if_false _ _ _ old))
              (additions-New items name prompts)
      ]

  -- What an edit needs: a pack asks nothing twice.
  abbrev pub IsFair : Edit → Type 0
  IsFair (toggles pack) = NoTwins u (rows pack.name pack.prompts)
  IsFair (removes index) = Unit {0}
  IsFair (adds draft) = Unit {0}

  abbrev pub IsQuestionSet : List Item → Type 0
  IsQuestionSet items = NoTwins u items × (length items ≤ max_prompts)

  commit-IsQuestionSet : (items : List Item) → NoTwins u items → IsQuestionSet (commit items)
  unfolding commit
  commit-IsQuestionSet items d =
      (take-NoTwins max_prompts items d, length-take-le max_prompts items)

  edit-IsQuestionSet :
      (e : Edit) (items : List Item)
      → IsFair e
      → IsQuestionSet items
      → IsQuestionSet (edit u e items)
  unfolding edit toggle_pack additions rows remove add_custom has_item
  edit-IsQuestionSet (toggles pack) items fair d =
      if_keeps IsQuestionSet (every (has_item u items) pack.prompts) _ _
        (commit-IsQuestionSet _ (filter-NoTwins (λ i. not (in_pack u pack.prompts i)) items d.0))
        (commit-IsQuestionSet _ (
          append-NoTwins items _ d.0 (rows-NoTwins pack.name _ pack.prompts fair)
            (additions-New items pack.name pack.prompts)))
  edit-IsQuestionSet (removes index) items fair d =
      commit-IsQuestionSet _ (remove_at-NoTwins index items d.0)
  edit-IsQuestionSet (adds draft) items fair d =
      let text = bounded_text u draft max_len in
      elim (Bool-cases
        (ltb 0 (length text) && not (has_item u items text) && ltb (length items) max_prompts)) [
          | inl new ↦
              subst IsQuestionSet (sym (if_true _ _ _ new))
                (commit-IsQuestionSet _ (append-NoTwins items _ d.0 (refl, tt) (ground arith, tt)))
          | inr old ↦ subst IsQuestionSet (sym (if_false _ _ _ old)) d
        ]

  -- However a host puts questions together by packs that ask nothing twice, by
  -- removals and by questions of their own, a list that held at most as many as a game
  -- plays, and no two that are the same but for case and the spaces around, still does.
  pub edit_all-IsQuestionSet :
      (edits : List Edit) (items : List Item)
      → All IsFair edits
      → NoTwins u items × (length items ≤ max_prompts)
      → NoTwins u (edit_all u edits items) × (length (edit_all u edits items) ≤ max_prompts)
  unfolding edit_all
  edit_all-IsQuestionSet [] items fair d = d
  edit_all-IsQuestionSet (e ∷ edits) items fair d =
      edit_all-IsQuestionSet edits (edit u e items) fair.1 (edit-IsQuestionSet e items fair.0 d)

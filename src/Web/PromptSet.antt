-- ===== src/Web/PromptSet.antt =====
-- apps/web/src/games/PromptSetEditor.tsx: the list of questions that a host puts together. Dragging a
-- row, which another library moves, is left out.
pub mod Laws
use klatchr.Prelude.{
  ℕ, zero, suc, Bool, true, false, not, ◌&&◌, ◌||◌, List, [], ◌∷◌, ◌++◌, map, filter, every, take,
  length, ltb, Text, codes, same, if◌then◌else◌,
}
use klatchr.Strings.{Unicode, trim, bounded_text}
use klatchr.Games.Prompts.{max_prompts, max_len}

pub record Item : Type 0 where
  pub text : Text
  pub source : Text

pub record Pack : Type 0 where
  pub id : Text
  pub name : Text
  pub prompts : List Text

unfoldable pub norm : Unicode → Text → Text
norm u t = u.lower (trim t)

unfoldable pub has_item : Unicode → List Item → Text → Bool
has_item u [] t = false
has_item u (item ∷ items) t = same (norm u item.text) (norm u t) || has_item u items t

-- What `commit` leaves of the next list.
unfoldable pub commit : List Item → List Item
commit next = take max_prompts next

unfoldable pub in_pack : Unicode → List Text → Item → Bool
in_pack u [] item = false
in_pack u (p ∷ prompts) item = same (norm u p) (norm u item.text) || in_pack u prompts item

unfoldable pub additions : Unicode → Pack → List Item → List Item
additions u pack items =
    map (λ t. record { text = t; source = pack.name })
      (filter (λ p. ltb 0 (length (trim p)) && not (has_item u items p)) pack.prompts)

unfoldable pub toggle_pack : Unicode → Pack → List Item → List Item
toggle_pack u pack items =
    if every (has_item u items) pack.prompts
    then commit (filter (λ i. not (in_pack u pack.prompts i)) items)
    else commit (items ++ additions u pack items)

unfoldable pub remove_at : ℕ → List Item → List Item
remove_at i [] = []
remove_at zero (item ∷ items) = items
remove_at (suc i) (item ∷ items) = item ∷ remove_at i items

unfoldable pub remove : ℕ → List Item → List Item
remove index items = commit (remove_at index items)

unfoldable pub add_custom : Unicode → Text → List Item → List Item
add_custom u draft items =
    let text = bounded_text u draft max_len in
    if ltb 0 (length text) && not (has_item u items text) && ltb (length items) max_prompts
    then commit (items ++ record { text = text; source = codes "yours" } ∷ [])
    else items

pub data Edit : Type 0 where
  toggles : (pack : Pack) → Edit
  removes : (index : ℕ) → Edit
  adds : (draft : Text) → Edit

unfoldable pub edit : Unicode → Edit → List Item → List Item
edit u (toggles pack) items = toggle_pack u pack items
edit u (removes index) items = remove index items
edit u (adds draft) items = add_custom u draft items

unfoldable pub edit_all : Unicode → List Edit → List Item → List Item
edit_all u [] items = items
edit_all u (e ∷ edits) items = edit_all u edits (edit u e items)

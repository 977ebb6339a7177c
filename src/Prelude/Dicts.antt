-- ===== src/Prelude/Dicts.antt =====
-- A `Record<string, V>` or a `Map` with string keys: its entries in insertion order. Writing a key
-- that is there keeps its place.
use mathlib.Core.Path.{◌≡◌, refl}
use mathlib.Core.Bool.{Bool, true, false, not, ◌&&◌, ◌||◌}
use mathlib.Core.List.{List, [], ◌∷◌, ◌++◌, map}
use mathlib.Core.Option.{Option, none, some}
use native.Mathlib.Omega.{arith}
use mathlib.Core.Logic.{inl, inr}
use klatchr.Prelude.Tests.{if◌then◌else◌, Bool-cases}
use klatchr.Prelude.Lists.{filter}
use klatchr.Prelude.Texts.{
  Text, same, same_iff, same_refl, includes, includes-without, Distinct, Distinct-snoc,
}

abbrev pub Dict {ℓ} : Type ℓ → Type ℓ
Dict V = List (Text × V)

module _ {ℓ} {V : Type ℓ} where
  abbrev pub keys : Dict V → List Text
  keys m = map (λ e. e.0) m

  abbrev pub values : Dict V → List V
  values m = map (λ e. e.1) m

  unfoldable pub lookup : Text → Dict V → Option V
  lookup k [] = none
  lookup k ((j, v) ∷ m) = if same j k then some v else lookup k m

  unfoldable pub insert : Text → V → Dict V → Dict V
  insert k v [] = (k, v) ∷ []
  insert k v ((j, w) ∷ m) = if same j k then (j, v) ∷ m else (j, w) ∷ insert k v m

  -- Without the key.
  unfoldable pub omit : Text → Dict V → Dict V
  omit k m = filter (λ e. not (same e.0 k)) m

  unfoldable pub has : Text → Dict V → Bool
  has k m = includes (keys m) k

  pub lookup-insert :
      (k j : Text) (v : V) (m : Dict V)
      → lookup j (insert k v m) ≡ (if same k j then some v else lookup j m)
  unfolding lookup insert
  lookup-insert k j v [] = refl
  lookup-insert k j v ((i, w) ∷ m) =
      ground (arith, same_iff k j, same_iff i k, same_iff i j, lookup-insert k j v m)

  pub lookup-omit :
      (k j : Text) (m : Dict V) → lookup j (omit k m) ≡ (if same k j then none else lookup j m)
  unfolding lookup omit
  lookup-omit k j [] = ground arith
  lookup-omit k j ((i, w) ∷ m) =
      ground (arith, same_iff k j, same_iff i k, same_iff i j, lookup-omit k j m)

  pub lookup-insert_self : (k : Text) (v : V) (m : Dict V) → lookup k (insert k v m) ≡ some v
  lookup-insert_self k v m = ground (arith, lookup-insert k k v m, same_refl k)

  -- A key is there when its lookup finds something.
  pub has-lookup :
      (k : Text) (m : Dict V) → has k m ≡ (elim (lookup k m) [ none ↦ false | some _ ↦ true ])
  unfolding has includes lookup
  has-lookup k [] = refl
  has-lookup k ((j, v) ∷ m) = ground (arith, has-lookup k m)

  pub keys-insert :
      (k : Text) (v : V) (m : Dict V)
      → keys (insert k v m) ≡ (if has k m then keys m else keys m ++ k ∷ [])
  unfolding insert has includes
  keys-insert k v [] = refl
  keys-insert k v ((j, w) ∷ m) = ground (arith, keys-insert k v m)

  pub keys-omit : (k : Text) (m : Dict V) → keys (omit k m) ≡ filter (λ j. not (same j k)) (keys m)
  unfolding omit
  keys-omit k [] = refl
  keys-omit k ((j, w) ∷ m) = ground (arith, keys-omit k m)

  pub has-insert : (k j : Text) (v : V) (m : Dict V) → has j (insert k v m) ≡ (same k j || has j m)
  has-insert k j v m =
      ground (arith, has-lookup j (insert k v m), has-lookup j m, lookup-insert k j v m)

  pub has-omit : (k j : Text) (m : Dict V) → has j (omit k m) ≡ (has j m && not (same j k))
  unfolding has
  has-omit k j m = rw (keys-omit k m) (includes-without k j (keys m))

  pub Distinct-keys-insert :
      (k : Text) (v : V) (m : Dict V) → Distinct (keys m) → Distinct (keys (insert k v m))
  unfolding has
  Distinct-keys-insert k v m d = rw (keys-insert k v m) (elim (Bool-cases (has k m)) [
    | inl old ↦ rw old d
    | inr new ↦ rw new (Distinct-snoc (keys m) k d new)
  ])

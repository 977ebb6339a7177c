-- ===== src/Server/Hub/Counts.antt =====
-- The counts that the hub keeps for each address, and what they count.
use klatchr.Prelude.{
  ℕ, suc, ◌+◌, ◌-◌, ◌≡◌, refl, subst, ap, false, some, [], ◌∷◌, Text, Dict, keys, lookup, insert,
  omit, has, includes, same, same_iff, Distinct, lookup-insert, lookup-omit, length, if◌then◌else◌,
  arith, Option-cases, Bool-cases, inl, inr,
}
use klatchr.Server.Hub.{count_or, release}

-- How many of the live rooms an address has opened.
unfoldable pub live_of : Text → Dict Text → ℕ
live_of address [] = 0
live_of address ((code, opener) ∷ rest) =
    (if same opener address then 1 else 0) + live_of address rest

omit_absent : {V : Type 0} (k : Text) (m : Dict V) → has k m ≡ false → omit k m ≡ m
unfolding omit has includes
omit_absent k [] h = refl
omit_absent k ((j, v) ∷ m) h = ground (arith, omit_absent k m)

pub live_of-omit :
    (code address a : Text) (m : Dict Text)
    → Distinct (keys m)
    → lookup code m ≡ some address
    → live_of a (omit code m) + (if same address a then 1 else 0) ≡ live_of a m
unfolding live_of omit lookup has
live_of-omit code address a [] d h = absurd (cc)
live_of-omit code address a ((j, opener) ∷ m) d h = elim (Bool-cases (same j code)) [
  | inl here ↦
      let this : j ≡ code = (same_iff j code).0 here in
      let opened : opener ≡ address = ground arith in
      ground (arith, omit_absent code m (subst (λ k. includes (keys m) k ≡ false) this d.0))
  | inr other ↦ ground (arith, live_of-omit code address a m d.1)
]

pub live_of-insert :
    (code address a : Text) (m : Dict Text)
    → has code m ≡ false
    → live_of a (insert code address m) ≡ live_of a m + (if same address a then 1 else 0)
unfolding live_of insert has includes
live_of-insert code address a [] h = omega arith
live_of-insert code address a ((j, opener) ∷ m) h = ground (arith, live_of-insert code address a m)

-- A release takes one from the count of its address, and never below nought.
pub count-release :
    (address a : Text) (counts : Dict ℕ)
    → count_or 0 (lookup a (release address counts))
      ≡ (if same address a then count_or 0 (lookup a counts) - 1 else count_or 0 (lookup a counts))
unfolding release count_or
count-release address a counts = elim (Option-cases (lookup address counts)) [
  | inl none_yet ↦ ground (arith, lookup-omit address a counts, same_iff address a)
  | inr (n, found) ↦ ground (
    arith,
    lookup-omit address a counts,
    lookup-insert address a (n - 1) counts,
    same_iff address a,
  )
]

pub length-insert :
    {V : Type 0} (k : Text) (v : V) (m : Dict V)
    → length (insert k v m) ≡ (if has k m then length m else suc (length m))
unfolding insert has includes
length-insert k v [] = refl
length-insert k v ((j, w) ∷ m) = ground (arith, length-insert k v m)

pub count-insert :
    (address a : Text) (n : ℕ) (counts : Dict ℕ)
    → count_or 0 (lookup a (insert address n counts))
      ≡ (if same address a then n else count_or 0 (lookup a counts))
unfolding count_or
count-insert address a n counts = ground (arith, lookup-insert address a n counts)

-- One more for an address counts a room that it opened.
pub count-opened :
    (code address a : Text) (counts : Dict ℕ) (m : Dict Text)
    → has code m ≡ false
    → ((a : Text) → count_or 0 (lookup a counts) ≡ live_of a m)
    → count_or 0 (lookup a (insert address (count_or 0 (lookup address counts) + 1) counts))
      ≡ live_of a (insert code address m)
count-opened code address a counts m new counted = elim (Bool-cases (same address a)) [
  | inl here ↦
      let this : address ≡ a = (same_iff address a).0 here in
      ground (
        arith,
        count-insert address a (count_or 0 (lookup address counts) + 1) counts,
        live_of-insert code address a m new,
        counted address,
        ap (λ x. live_of x m) this,
      )
  | inr other ↦ ground (
    arith,
    count-insert address a (count_or 0 (lookup address counts) + 1) counts,
    live_of-insert code address a m new,
    counted a,
  )
]

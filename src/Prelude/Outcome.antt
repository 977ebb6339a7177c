-- ===== src/Prelude/Outcome.antt =====
-- packages/core/src/result.ts, and what a reducer returns when it may hand back the very state it
-- was given: the code compares the two by reference.

use mathlib.Core.Path.{◌≡◌, refl}
use mathlib.Core.Logic.{◌⊎◌, inl, inr}

-- `{ ok: true, value } | { ok: false, error }`.
pub data Result {ℓ κ} (A : Type ℓ) (E : Type κ) : Type (ℓ ⊔ κ) where
  ok : A → Result A E
  err : E → Result A E

-- `kept` is the same object, `fresh` a new one.
pub data Next {ℓ} (S : Type ℓ) : Type ℓ where
  kept : Next S
  fresh : S → Next S

abbrev pub next_of {ℓ} : {S : Type ℓ} → S → Next S → S
next_of s kept = s
next_of s (fresh t) = t

pub Result-cases {ℓ κ} :
    {A : Type ℓ} {E : Type κ} (r : Result A E) → ((a : A) × (r ≡ ok a)) ⊎ ((e : E) × (r ≡ err e))
Result-cases (ok a) = inl (a, refl)
Result-cases (err e) = inr (e, refl)

-- The state after a reduction: a rejection leaves it as it was.
abbrev pub after {ℓ κ} : {S : Type ℓ} {E : Type κ} → S → Result (Next S) E → S
after s (ok next) = next_of s next
after s (err e) = s

-- What holds of the state and of every new state that the reduction may give holds after it.
pub after_cases {ℓ κ μ} :
    {S : Type ℓ} {E : Type κ} (P : S → Type μ) (s : S) (r : Result (Next S) E)
    → P s
    → ((t : S) → r ≡ ok (fresh t) → P t)
    → P (after s r)
after_cases P s (ok kept) h k = h
after_cases P s (ok (fresh t)) h k = k t refl
after_cases P s (err e) h k = h

-- ===== src/Prelude/Texts.antt =====
-- A JavaScript string is a sequence of UTF-16 code units, here a list of numbers.
use Prim.Native.Nat.{ℕ, ◌≤◌, ◌<◌}
use Prim.Native.Char.{code}
use Prim.Native.String.{String}
use mathlib.Core.Path.{◌≡◌, refl}
use mathlib.Core.Bool.{Bool, true, false, not, ◌&&◌, ◌||◌}
use mathlib.Core.Logic.{◌↔◌}
use mathlib.Core.List.{List, [], ◌∷◌, ◌++◌}
use native.Mathlib.Omega.{arith}
use klatchr.Prelude.Tests.{◌==◌}
use klatchr.Prelude.Lists.{filter, length, length-filter-le}

abbrev pub Text : Type 0
Text = List ℕ

-- The units of an ASCII literal.
abbrev pub codes : String → Text
codes String.[] = []
codes (String.◌∷◌ c s) = code c ∷ codes s

-- `a === b` on strings.
unfoldable pub same : Text → Text → Bool
same [] [] = true
same [] (y ∷ ys) = false
same (x ∷ xs) [] = false
same (x ∷ xs) (y ∷ ys) = (x == y) && same xs ys

pub same_refl : (a : Text) → same a a ≡ true
unfolding same
same_refl [] = refl
same_refl (x ∷ xs) = ground (arith, same_refl xs)

pub same→eq : (a b : Text) → same a b ≡ true → a ≡ b
unfolding same
same→eq [] [] h = refl
same→eq [] (y ∷ ys) h = cc
same→eq (x ∷ xs) [] h = cc
same→eq (x ∷ xs) (y ∷ ys) h = ground (arith, same→eq xs ys)

pub same_iff : (a b : Text) → (same a b ≡ true) ↔ (a ≡ b)
same_iff a b = (same→eq a b, λ e. rw e (same_refl b))

-- `xs.includes(x)` on an array of strings.
unfoldable pub includes : List Text → Text → Bool
includes [] x = false
includes (y ∷ ys) x = same y x || includes ys x

pub includes-append :
    (xs ys : List Text) (x : Text) → includes (xs ++ ys) x ≡ (includes xs x || includes ys x)
unfolding includes
includes-append [] ys x = refl
includes-append (y ∷ xs) ys x = ground (arith, includes-append xs ys x)

-- No string occurs twice.
abbrev pub Distinct : List Text → Type 0
Distinct [] = Unit {0}
Distinct (x ∷ xs) = (includes xs x ≡ false) × Distinct xs

pub includes-last : (xs : List Text) (x : Text) → includes (xs ++ x ∷ []) x ≡ true
unfolding includes
includes-last xs x = ground (arith, includes-append xs (x ∷ []) x, same_refl x)

pub Distinct-snoc :
    (xs : List Text) (x : Text) → Distinct xs → includes xs x ≡ false → Distinct (xs ++ x ∷ [])
unfolding includes
Distinct-snoc [] x d h = (refl, tt)
Distinct-snoc (y ∷ ys) x d h = (
  ground (arith, includes-append ys (x ∷ []) y, same_iff y x, same_iff x y),
  Distinct-snoc ys x d.1 (ground arith),
)

-- Every element but `k`.
abbrev pub without : Text → List Text → List Text
without k = filter (λ j. not (same j k))

pub includes-without :
    (k x : Text) (xs : List Text) → includes (without k xs) x ≡ (includes xs x && not (same x k))
unfolding includes
includes-without k x [] = refl
includes-without k x (y ∷ xs) =
    ground (arith, includes-without k x xs, same_iff y x, same_iff y k, same_iff x k)

pub includes-filter :
    (p : Text → Bool) (x : Text) (xs : List Text)
    → includes (filter p xs) x ≡ (includes xs x && p x)
unfolding includes
includes-filter p x [] = refl
includes-filter p x (y ∷ xs) = ground (arith, includes-filter p x xs, same_iff y x)

pub Distinct-filter : (p : Text → Bool) (xs : List Text) → Distinct xs → Distinct (filter p xs)
Distinct-filter p [] d = tt
Distinct-filter p (x ∷ xs) d = ground (arith, includes-filter p x xs, Distinct-filter p xs d.1)

pub Distinct-without : (k : Text) (xs : List Text) → Distinct xs → Distinct (without k xs)
Distinct-without k [] d = tt
Distinct-without k (x ∷ xs) d = ground (arith, includes-without k x xs, Distinct-without k xs d.1)

length-without-lt :
    (k : Text) (xs : List Text) → includes xs k ≡ true → length (without k xs) < length xs
unfolding includes
length-without-lt k [] h = cc
length-without-lt k (x ∷ xs) h =
    ground (arith, length-without-lt k xs, length-filter-le (λ j. not (same j k)) xs)

-- Distinct strings among `ys` are no more than `ys` has.
pub length-le_of_subset :
    (xs ys : List Text)
    → Distinct xs
    → ((k : Text) → includes xs k ≡ true → includes ys k ≡ true)
    → length xs ≤ length ys
unfolding includes
length-le_of_subset [] ys d h = omega arith
length-le_of_subset (x ∷ xs) ys d h =
    let rest =
      length-le_of_subset xs (without x ys) d.1
        (λ k i. ground (arith, includes-without x k ys, h k, same_iff k x, same_iff x k)) in
    omega (arith, rest, length-without-lt x ys (h x (ground (arith, same_refl x))))

-- ===== src/RoomCode/Laws.antt =====
-- A minted code is one that the join link recognises, and is not taken.
use klatchr.Prelude.{
  Bool-cases, inl, inr, leb, ◌≤◌, ℕ, zero, suc, ◌+◌, ◌*◌, ◌<◌, ◌≡◌, refl, subst, Bool, true, false,
  ◌&&◌, some, List, [], ◌∷◌, ◌++◌, Text, includes, length, length-append, every, ◌==◌, arith,
  Bool-cases, inl, inr,
}
use klatchr.RoomCode.{
  alphabet, char_at, build_from, build_code, generate_room_code, includes_char, is_room_code,
}

-- Every draw picks one of the 26 letters.
abbrev pub IsDraw : (ℕ → ℕ) → Type 0
IsDraw draw = (k : ℕ) → draw k < 26

-- Whether the draws `i` to `i + left - 1` all pass.
passes : (ℕ → Bool) → (left i : ℕ) → Bool
passes test zero i = true
passes test (suc left) i = test i && passes test left (suc i)

passes_at :
    (test : ℕ → Bool) (left i k : ℕ)
    → i ≤ k
    → k < i + left
    → passes test left i ≡ true
    → test k ≡ true
unfolding passes
passes_at test zero i k from to h = absurd (omega arith)
passes_at test (suc left) i k from to h = elim (Bool-cases (leb (suc i) k)) [
  | inl later ↦ passes_at test left (suc i) k (ground arith) (omega arith) (ground arith)
  | inr here ↦ let this : i ≡ k = ground arith in ground arith
]

is_letter : ℕ → Bool
is_letter d =
    (length (char_at alphabet d) == 1) && every (includes_char alphabet) (char_at alphabet d)

letters : passes is_letter 26 0 ≡ true
unfolding passes is_letter char_at includes_char
letters = refl

every-append : (p : ℕ → Bool) (a b : Text) → every p (a ++ b) ≡ (every p a && every p b)
every-append p [] b = refl
every-append p (x ∷ a) b = ground (arith, every-append p a b)

build_from-letters :
    (draw : ℕ → ℕ) (n k : ℕ) (code : Text)
    → IsDraw draw
    → every (includes_char alphabet) code ≡ true
    → (length (build_from draw n k code) ≡ length code + n)
      × (every (includes_char alphabet) (build_from draw n k code) ≡ true)
unfolding build_from is_letter
build_from-letters draw zero k code d h = (omega arith, h)
build_from-letters draw (suc n) k code d h =
    let letter = passes_at is_letter 26 0 (draw k) (omega arith) (d k) letters in
    let one = char_at alphabet (draw k) in
    let rest =
      build_from-letters draw n (suc k) (code ++ one) d
        (ground (arith, every-append (includes_char alphabet) code one)) in
    let single : length one ≡ 1 = ground arith in
    (omega (arith, rest.0, length-append code one, single), rest.1)

build_code-is_room_code :
    (draw : ℕ → ℕ) (k : ℕ) → IsDraw draw → is_room_code (build_code draw k) ≡ true
unfolding is_room_code build_code
build_code-is_room_code draw k d = ground (arith, build_from-letters draw 4 k [] d)

pub generate_room_code-free :
    (fuel : ℕ) (draw : ℕ → ℕ) (taken : List Text) (k : ℕ) (code : Text)
    → generate_room_code fuel draw taken k ≡ some code
    → includes taken code ≡ false
unfolding generate_room_code
generate_room_code-free zero draw taken k code h = absurd (cc)
generate_room_code-free (suc fuel) draw taken k code h =
    ground (arith, generate_room_code-free fuel draw taken (k + 4) code)

-- Where every draw picks one of the 26 letters, a code that is minted is recognised as a room
-- code and is not among the taken ones.
pub generate_room_code-valid :
    (fuel : ℕ) (draw : ℕ → ℕ) (taken : List Text) (k : ℕ) (code : Text)
    → IsDraw draw
    → generate_room_code fuel draw taken k ≡ some code
    → (is_room_code code ≡ true) × (includes taken code ≡ false)
unfolding generate_room_code
generate_room_code-valid zero draw taken k code d h = absurd (cc)
generate_room_code-valid (suc fuel) draw taken k code d h = ground (
  arith,
  build_code-is_room_code draw k d,
  generate_room_code-valid fuel draw taken (k + 4) code d,
)

-- The loop ends as soon as one of its attempts is free: with the j-th attempt free and more than j
-- attempts allowed, a code is minted.
pub generate_room_code-total :
    (fuel : ℕ) (draw : ℕ → ℕ) (taken : List Text) (k j : ℕ)
    → j < fuel
    → includes taken (build_code draw (k + j * 4)) ≡ false
    → (code : Text) × (generate_room_code fuel draw taken k ≡ some code)
unfolding generate_room_code
generate_room_code-total zero draw taken k j h free = absurd (omega arith)
generate_room_code-total (suc fuel) draw taken k zero h free =
    let now : includes taken (build_code draw k) ≡ false =
      subst (λ i. includes taken (build_code draw i) ≡ false) (omega arith) free in
    rw (now, generate_room_code) (build_code draw k, refl)
generate_room_code-total (suc fuel) draw taken k (suc j) h free =
    let rest =
      generate_room_code-total fuel draw taken (k + 4) j (omega arith)
        (subst (λ i. includes taken (build_code draw i) ≡ false) (omega arith) free) in
    elim (Bool-cases (includes taken (build_code draw k))) [
      | inr now ↦ rw (now, generate_room_code) (build_code draw k, refl)
      | inl used ↦ rw (used, generate_room_code) rest
    ]

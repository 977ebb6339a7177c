-- ===== src/Rounds/Seats.antt =====
-- The rotating window of seats (`seatWindow`).
use native.Mathlib.Nat.{
  add-zero, mod-lt, mod-eq_of_lt, mod-add-mod, div-add-mod', add-mul, add-mod_right,
}
use klatchr.Prelude.{
  ℕ, zero, suc, ◌+◌, ◌-◌, ◌*◌, ◌/◌, ◌%◌, ◌≤◌, ◌<◌, ◌≡◌, refl, ◌∙◌, ap, subst, false, not, List, [],
  ◌∷◌, map, some, min, length, filter, get_elem?, arith, ltb, leb, if◌then◌else◌, Bool-cases, inl,
  inr, lt→ltb, lt→leb-false, ltb-false→le, tests,
}
use klatchr.Game.{Player}
use klatchr.Rounds.{seat_offset, sits_out, seat_from, seat_window}

abbrev pub active : List Player → List Player
active ps = filter (λ p. not p.spectator) ps

-- The place of index `i` in a window that starts at `o`.
abbrev place : ℕ → ℕ → ℕ → ℕ
place n o i = if ltb i o then i + n - o else i - o

place-mod : (n o i : ℕ) → i < n → o < n → (i + n - o) % n ≡ place n o i
place-mod n o i hi ho = elim (Bool-cases (ltb i o)) [
  | inl before ↦ rw before (mod-eq_of_lt (omega (tests)))
  | inr after ↦ rw after (
      ap (λ k. k % n) (omega (arith, ltb-false→le i o after))
      ∙ add-mod_right (i - o) n
      ∙ mod-eq_of_lt (omega (arith)))
]

sits_out_at : (n m o i : ℕ) → i < n → o < n → sits_out n m o i ≡ leb m (place n o i)
unfolding sits_out
sits_out_at n m o i hi ho = rw (place-mod n o i hi ho)

-- The seats among the indices from `i` on.
abbrev seats_from : ℕ → ℕ → ℕ → ℕ → ℕ
seats_from n m o i = (min n (o + min n m) - (if ltb i o then o else i)) + (o + min n m - n - i)

length-active-seat_from :
    (n m o i : ℕ) (ps : List Player)
    → i + length ps ≡ n
    → o < n
    → length (active (seat_from n m o i ps)) ≡ seats_from n m o i
unfolding seat_from
length-active-seat_from n m o i [] h ho = ground arith
length-active-seat_from n m o i (p ∷ ps) h ho =
    ground (arith, length-active-seat_from n m o (suc i) ps, sits_out_at n m o i)

seats_from-zero : (n m o : ℕ) → o < n → seats_from n m o 0 ≡ min n m
seats_from-zero n m o h = ground arith

seat_offset-lt : (n m r : ℕ) → 0 < n → seat_offset n m r < n
unfolding seat_offset
seat_offset-lt n m r h = ground (arith, mod-lt ((r - 1) * m) h)

-- Every round seats as many players as there are, up to the game's maximum.
pub length-active-seat_window :
    (ps : List Player) (m r : ℕ) → length (active (seat_window ps m r)) ≡ min (length ps) m
unfolding seat_window seat_from
length-active-seat_window [] m r = omega arith
length-active-seat_window (p ∷ ps) m r =
    let n = suc (length ps) in
    let o = seat_offset n m r in
    let ho : o < n = seat_offset-lt n m r (omega arith) in
    length-active-seat_from n m o 0 (p ∷ ps) (omega arith) ho ∙ seats_from-zero n m o ho

-- A sum of two indices, brought back below `n`.
abbrev wrapped : ℕ → ℕ → ℕ
wrapped n x = if ltb x n then x else x - n

mod-wrapped : (n x : ℕ) → x < n + n → x % n ≡ wrapped n x
mod-wrapped n x h = elim (Bool-cases (ltb x n)) [
  | inl small ↦ rw small (mod-eq_of_lt (omega tests))
  | inr large ↦ rw large (
      ap (λ k. k % n) (omega (arith, ltb-false→le x n large))
      ∙ add-mod_right (x - n) n
      ∙ mod-eq_of_lt (omega arith))
]

place-wrapped :
    (n o b d : ℕ) → b ≤ d → d < n → o < n → place n (wrapped n (o + b)) (wrapped n (o + d)) ≡ d - b
place-wrapped n o b d h hd ho = ground arith

-- A player `d` places behind the window of offset `o` has reached it once it has moved on by the
-- multiple of `m` below `d`.
reached :
    (n m o d : ℕ) → d < n → o < n → 0 < m → place n ((o + d / m * m) % n) ((o + d) % n) ≡ d % m
reached n m o d hd ho hm =
    let split : d / m * m + d % m ≡ d = div-add-mod' d m in
    rw (mod-wrapped n (o + d / m * m) (omega arith), mod-wrapped n (o + d) (omega arith))
      (place-wrapped n o (d / m * m) d (omega arith) hd ho ∙ omega arith)

seat_round-add : (r k m : ℕ) → 1 ≤ r → (r + k - 1) * m ≡ (r - 1) * m + k * m
seat_round-add r k m h = rw (← add-mul (r - 1) k m) (ap (λ x. x * m) (omega arith))

seat_offset-add :
    (n m r k : ℕ) → m < n → 1 ≤ r → seat_offset n m (r + k) ≡ (seat_offset n m r + k * m) % n
unfolding seat_offset
seat_offset-add n m r k h hr =
    rw (lt→ltb m n h, mod-add-mod ((r - 1) * m) n (k * m))
      (ap (λ x. x % n) (seat_round-add r k m hr))

-- With more players than seats, whoever stands `d` places behind the window of round `r` plays
-- `d / m` rounds later.
pub sits_out_later :
    (n m r d : ℕ)
    → m < n
    → 0 < m
    → 1 ≤ r
    → d < n
    → sits_out n m (seat_offset n m (r + d / m)) ((seat_offset n m r + d) % n) ≡ false
sits_out_later n m r d h hm hr hd =
    let o = seat_offset n m r in
    let ho : o < n = seat_offset-lt n m r (omega arith) in
    rw
      (
        seat_offset-add n m r (d / m) h hr,
        sits_out_at n m ((o + d / m * m) % n) ((o + d) % n) (mod-lt (o + d) (omega arith))
            (mod-lt (o + d / m * m) (omega arith)),
        reached n m o d hd ho hm,
      )
      (lt→leb-false (d % m) m (mod-lt d hm))

place-lt : (n o i : ℕ) → i < n → o < n → place n o i < n
place-lt n o i hi ho = ground arith

wrapped-place : (n o i : ℕ) → i < n → o < n → wrapped n (o + place n o i) ≡ i
wrapped-place n o i hi ho = ground arith

get_elem?-lt : (ps : List Player) (i : ℕ) {p : Player} → get_elem? ps i ≡ some p → i < length ps
get_elem?-lt [] i e = cc
get_elem?-lt (p ∷ ps) zero e = omega arith
get_elem?-lt (p ∷ ps) (suc i) e = omega (arith, get_elem?-lt ps i e)

get_elem?-seat_from :
    (n m o j i : ℕ) (ps : List Player) {p : Player}
    → get_elem? ps i ≡ some p
    → get_elem? (seat_from n m o j ps) i
      ≡ some (record p { spectator = sits_out n m o (j + i); joined_during_game = false })
unfolding seat_from
get_elem?-seat_from n m o j i [] e = cc
get_elem?-seat_from n m o j zero (p ∷ ps) e = rw (add-zero j) (cc)
get_elem?-seat_from n m o j (suc i) (p ∷ ps) {p = q} e =
    subst
      (λ k.
        get_elem? (seat_from n m o (suc j) ps) i
        ≡ some (record q { spectator = sits_out n m o k; joined_during_game = false }))
      (omega arith) (get_elem?-seat_from n m o (suc j) i ps e)

-- With more players than seats, and at least one seat, every player is dealt in within the ⌈n /
-- m⌉ rounds from any round on, as long as the list of players stays as it is.
pub seat_window_rotates :
    (ps : List Player) (m r i : ℕ) {p : Player}
    → m < length ps
    → 0 < m
    → 1 ≤ r
    → get_elem? ps i ≡ some p
    → (k : ℕ) × (k * m < length ps)
      × (get_elem? (seat_window ps m (r + k)) i
          ≡ some (record p { spectator = false; joined_during_game = false }))
unfolding seat_window
seat_window_rotates ps m r i {p} h hm hr e =
    let n = length ps in
    let o = seat_offset n m r in
    let ho : o < n = seat_offset-lt n m r (omega arith) in
    let hi : i < n = get_elem?-lt ps i e in
    let d = place n o i in
    let hd : d < n = place-lt n o i hi ho in
    let at_i : (o + d) % n ≡ i = mod-wrapped n (o + d) (omega arith) ∙ wrapped-place n o i hi ho in
    let seated : sits_out n m (seat_offset n m (r + d / m)) i ≡ false =
      subst (λ j. sits_out n m (seat_offset n m (r + d / m)) j ≡ false) at_i
        (sits_out_later n m r d h hm hr hd) in
    (
      d / m,
      omega (arith, div-add-mod' d m),
      subst
          (λ b.
            get_elem? (seat_from n m (seat_offset n m (r + d / m)) 0 ps) i
            ≡ some (record p { spectator = b; joined_during_game = false }))
          seated
          (subst
            (λ j.
              get_elem? (seat_from n m (seat_offset n m (r + d / m)) 0 ps) i
              ≡ some (record p {
                spectator = sits_out n m (seat_offset n m (r + d / m)) j;
                joined_during_game = false;
              }))
            (omega arith) (get_elem?-seat_from n m (seat_offset n m (r + d / m)) 0 i ps e)),
    )

ids-seat_from :
    (n m o i : ℕ) (ps : List Player) → map (λ p. p.id) (seat_from n m o i ps) ≡ map (λ p. p.id) ps
unfolding seat_from
ids-seat_from n m o i [] = refl
ids-seat_from n m o i (p ∷ ps) = ap (◌∷◌ p.id) (ids-seat_from n m o (suc i) ps)

length-seat_from : (n m o i : ℕ) (ps : List Player) → length (seat_from n m o i ps) ≡ length ps
unfolding seat_from
length-seat_from n m o i [] = refl
length-seat_from n m o i (p ∷ ps) = ap suc (length-seat_from n m o (suc i) ps)

pub length-seat_window : (ps : List Player) (m r : ℕ) → length (seat_window ps m r) ≡ length ps
unfolding seat_window
length-seat_window ps m r = length-seat_from (length ps) m (seat_offset (length ps) m r) 0 ps

-- A round's seating changes no identity: the ids stay, in order.
pub ids-seat_window :
    (ps : List Player) (m r : ℕ) → map (λ p. p.id) (seat_window ps m r) ≡ map (λ p. p.id) ps
unfolding seat_window
ids-seat_window ps m r = ids-seat_from (length ps) m (seat_offset (length ps) m r) 0 ps

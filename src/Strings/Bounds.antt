-- ===== src/Strings/Bounds.antt =====
-- How long a cleaned text can be.
use mathlib.Core.List.{reverse, reverse-cons}
use klatchr.Prelude.{
  ℕ, ◌+◌, ◌*◌, ◌≤◌, ◌≡◌, refl, ap, ◌∙◌, false, List, [], ◌∷◌, ◌++◌, Text, ok, length, length-append,
  arith,
}
use klatchr.Strings.{
  Unicode, trim_start, trim_end, trim, keep_segments, bounded_text, units_per_char, collapse_from,
  normalise_nickname, NormalisedNickname, max_nickname_length,
}

length-reverse : (t : Text) → length (reverse t) ≡ length t
length-reverse [] = refl
length-reverse (c ∷ t) =
    ap length (reverse-cons c t)
    ∙ length-append (reverse t) (c ∷ [])
    ∙ omega (arith, length-reverse t)

length-trim_start-le : (t : Text) → length (trim_start t) ≤ length t
unfolding trim_start
length-trim_start-le [] = omega arith
length-trim_start-le (c ∷ t) = ground (arith, length-trim_start-le t)

length-trim_end-le : (t : Text) → length (trim_end t) ≤ length t
unfolding trim_end
length-trim_end-le t = omega (
  arith,
  length-reverse (trim_start (reverse t)),
  length-trim_start-le (reverse t),
  length-reverse t,
)

length-keep_segments-le :
    (max : ℕ) (segments : List Text) (kept : Text) (count : ℕ)
    → length kept ≤ max * units_per_char
    → length (keep_segments max segments kept count) ≤ max * units_per_char
unfolding keep_segments
length-keep_segments-le max [] kept count h = h
length-keep_segments-le max (segment ∷ rest) kept count h = ground (
  arith,
  length-append kept segment,
  length-keep_segments-le max rest (kept ++ segment) (count + 1),
)

-- Whatever a client sends, a cleaned text has at most twelve code units for each character allowed.
pub length-bounded_text-le :
    (u : Unicode) (raw : Text) (max : ℕ) → length (bounded_text u raw max) ≤ max * units_per_char
unfolding bounded_text
length-bounded_text-le u raw max =
    let kept = keep_segments max (u.segments (trim raw)) [] 0 in
    ground
      (arith, length-trim_end-le kept, length-keep_segments-le max (u.segments (trim raw)) [] 0)

-- A nickname that is let in is not empty and has at most 240 code units.
pub normalise_nickname-bounds :
    (u : Unicode) (raw : Text) (name : NormalisedNickname)
    → normalise_nickname u raw ≡ ok name
    → (1 ≤ length name.display) × (length name.display ≤ 240)
unfolding normalise_nickname
normalise_nickname-bounds u raw name h =
    ground (arith, length-bounded_text-le u (collapse_from false raw) max_nickname_length)

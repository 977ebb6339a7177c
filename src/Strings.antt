-- ===== src/Strings.antt =====
-- packages/core/src/text.ts and nickname.ts. The tables of Unicode that the JavaScript engine
-- holds (grapheme clusters, case, format characters, collation) are a parameter.
pub mod Bounds
use klatchr.Prelude.{
  ℕ, suc, ◌+◌, ◌*◌, ◌≤◌, ◌≡◌, Bool, true, false, ◌&&◌, ◌||◌, not, List, [], ◌∷◌, ◌++◌, Text, Result,
  ok, err, ltb, leb, ◌==◌, if◌then◌else◌, length, codes,
}
use Prim.Native.Nat.{Ordering}
use mathlib.Core.List.{reverse, flatten}

pub record Unicode : Type 0 where
  -- `Intl.Segmenter` with granularity `grapheme`.
  pub segments : Text → List Text
  -- `toLowerCase`.
  pub lower : Text → Text
  -- `text.replace(/[\p{Cf}\s]/gu, '')`.
  pub strip_invisible : Text → Text
  -- `localeCompare`, by the sign of its result.
  pub compare_text : Text → Text → Ordering

-- The code units that `trim` and `\s` call white space.
unfoldable pub is_space : ℕ → Bool
is_space c =
    (leb 9 c && leb c 13)
    || c == 32
    || c == 160
    || c == 5760
    || (leb 8192 c && leb c 8202)
    || c == 8232
    || c == 8233
    || c == 8239
    || c == 8287
    || c == 12288
    || c == 65279

unfoldable pub trim_start : Text → Text
trim_start [] = []
trim_start (c ∷ t) = if is_space c then trim_start t else c ∷ t

unfoldable pub trim_end : Text → Text
trim_end t = reverse (trim_start (reverse t))

unfoldable pub trim : Text → Text
trim t = trim_end (trim_start t)

-- `raw.replace(/\s+/g, ' ')`; the flag says that the last unit read was white space.
unfoldable pub collapse_from : Bool → Text → Text
collapse_from in_space [] = []
collapse_from in_space (c ∷ t) =
    let rest = collapse_from (is_space c) t in
    if is_space c then (if in_space then rest else 32 ∷ rest) else c ∷ rest

abbrev pub units_per_char : ℕ
units_per_char = 12

-- The loop of `boundedText`, over the segments still to come.
unfoldable pub keep_segments : ℕ → List Text → Text → ℕ → Text
keep_segments max [] kept count = kept
keep_segments max (segment ∷ rest) kept count =
    let further = keep_segments max rest (kept ++ segment) (count + 1) in
    if (count == max) || ltb (max * units_per_char) (length kept + length segment)
    then kept
    else further

unfoldable pub bounded_text : Unicode → Text → ℕ → Text
bounded_text u raw max =
    let kept = trim_end (keep_segments max (u.segments (trim raw)) [] 0) in
    if length (u.strip_invisible kept) == 0 then [] else kept

pub data NicknameError : Type 0 where
  empty_nickname : NicknameError

pub record NormalisedNickname : Type 0 where
  pub display : Text

abbrev pub max_nickname_length : ℕ
max_nickname_length = 20

unfoldable pub normalise_nickname : Unicode → Text → Result NormalisedNickname NicknameError
normalise_nickname u raw =
    let display = bounded_text u (collapse_from false raw) max_nickname_length in
    if length display == 0 then err empty_nickname else ok (record { display = display })

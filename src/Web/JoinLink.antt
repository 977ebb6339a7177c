-- ===== src/Web/JoinLink.antt =====
-- apps/web/src/joinLink.ts: the room code of an address. `toUpperCase` and `URLSearchParams` are
-- parameters.
pub mod Laws
use klatchr.Prelude.{
  ℕ, ◌≡◌, Bool, true, false, ◌||◌, ◌==◌, Option, none, some, List, [], ◌∷◌, ◌++◌, Text,
  if◌then◌else◌, arith, refl,
}
use mathlib.Core.List.{reverse}
use klatchr.Strings.{trim, trim_start, trim_end, is_space}
use klatchr.RoomCode.{is_room_code}

unfoldable pub as_code : (Text → Text) → Text → Option Text
as_code upper raw = let code = upper (trim raw) in if is_room_code code then some code else none

unfoldable pub drop_slashes : Text → Text
drop_slashes [] = []
drop_slashes (c ∷ t) = if c == 47 then drop_slashes t else c ∷ t

-- `pathname.replace(/^\/+|\/+$/g, '')`.
unfoldable pub strip_slashes : Text → Text
strip_slashes t = reverse (drop_slashes (reverse (drop_slashes t)))

-- With the path, and the search's `code` as `URLSearchParams` reads it.
unfoldable pub code_from_location : (Text → Text) → Text → Option Text → Option Text
code_from_location upper pathname searched = elim (as_code upper (strip_slashes pathname)) [
  | some code ↦ some code
  | none ↦ as_code upper (elim searched [ none ↦ [] | some text ↦ text ])
]

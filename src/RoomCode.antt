-- ===== src/RoomCode.antt =====
-- packages/core/src/roomCode.ts. `draw k` is `Math.floor(random() * 26)` at the k-th call of the
-- injected source. The loop of `generateRoomCode` has no bound in the source; here it has fuel.
pub mod Laws
use klatchr.Prelude.{
  ℕ, zero, suc, ◌+◌, Bool, true, false, ◌&&◌, ◌||◌, Option, none, some, List, [], ◌∷◌, ◌++◌, Text,
  codes, includes, length, every, get_elem?, ◌==◌, if◌then◌else◌,
}

abbrev pub alphabet : Text
alphabet = codes "ABCDEFGHIJKLMNOPQRSTUVWXYZ"

abbrev pub room_code_length : ℕ
room_code_length = 4

-- `text.charAt(i)`: nothing past the end.
unfoldable pub char_at : Text → ℕ → Text
char_at text i = elim (get_elem? text i) [ none ↦ [] | some c ↦ c ∷ [] ]

-- The loop of `buildCode`, with the letters left to draw.
unfoldable pub build_from : (ℕ → ℕ) → ℕ → ℕ → Text → Text
build_from draw zero k code = code
build_from draw (suc n) k code = build_from draw n (suc k) (code ++ char_at alphabet (draw k))

unfoldable pub build_code : (ℕ → ℕ) → ℕ → Text
build_code draw k = build_from draw room_code_length k []

-- The attempts from the k-th draw on, each of four draws.
unfoldable pub generate_room_code : ℕ → (ℕ → ℕ) → List Text → ℕ → Option Text
generate_room_code zero draw taken k = none
generate_room_code (suc fuel) draw taken k =
    let again = generate_room_code fuel draw taken (k + 4) in
    if includes taken (build_code draw k) then again else some (build_code draw k)

unfoldable pub includes_char : Text → ℕ → Bool
includes_char [] c = false
includes_char (d ∷ text) c = (d == c) || includes_char text c

unfoldable pub is_room_code : Text → Bool
is_room_code code = (length code == room_code_length) && every (includes_char alphabet) code

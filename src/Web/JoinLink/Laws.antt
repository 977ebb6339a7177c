-- ===== src/Web/JoinLink/Laws.antt =====
-- The link that a board shows leads to its room.
use mathlib.Core.List.{reverse}
use klatchr.Prelude.{ℕ, ◌≡◌, ◌≤◌, true, Option, some, [], ◌∷◌, Text, arith, refl, ap, ◌∙◌}
use klatchr.Strings.{trim, trim_start, trim_end, is_space}
use klatchr.RoomCode.{is_room_code, includes_char, alphabet}
use klatchr.Web.JoinLink.{as_code, drop_slashes, strip_slashes, code_from_location}

-- A letter of a code is a capital.
letter : (c : ℕ) → includes_char alphabet c ≡ true → (65 ≤ c) × (c ≤ 90)
unfolding includes_char
letter c h = ground arith

first_kept : (c : ℕ) (t : Text) → 65 ≤ c → c ≤ 90 → drop_slashes (c ∷ t) ≡ c ∷ t
unfolding drop_slashes
first_kept c t low high = ground arith

first_trimmed : (c : ℕ) (t : Text) → 65 ≤ c → c ≤ 90 → trim_start (c ∷ t) ≡ c ∷ t
unfolding trim_start is_space
first_trimmed c t low high = ground arith

leading : (t : Text) → drop_slashes (47 ∷ t) ≡ drop_slashes t
unfolding drop_slashes
leading t = refl

found :
    (upper : Text → Text) (code pathname : Text) (searched : Option Text)
    → strip_slashes pathname ≡ code
    → trim code ≡ code
    → upper code ≡ code
    → is_room_code code ≡ true
    → code_from_location upper pathname searched ≡ some code
unfolding code_from_location as_code
found upper code pathname searched strips trims same valid =
    rw (strips, trims, same, valid, code_from_location, as_code) refl

stripped :
    (a b c d : ℕ)
    → 65 ≤ a
    → a ≤ 90
    → 65 ≤ d
    → d ≤ 90
    → strip_slashes (47 ∷ a ∷ b ∷ c ∷ d ∷ []) ≡ a ∷ b ∷ c ∷ d ∷ []
unfolding strip_slashes
stripped a b c d la ha ld hd =
    ap (λ (t : Text). reverse (drop_slashes (reverse t)))
      (leading (a ∷ b ∷ c ∷ d ∷ []) ∙ first_kept a (b ∷ c ∷ d ∷ []) la ha)
    ∙ ap (λ (t : Text). reverse t) (first_kept d (c ∷ b ∷ a ∷ []) ld hd)

trimmed :
    (a b c d : ℕ)
    → 65 ≤ a
    → a ≤ 90
    → 65 ≤ d
    → d ≤ 90
    → trim (a ∷ b ∷ c ∷ d ∷ []) ≡ a ∷ b ∷ c ∷ d ∷ []
unfolding trim trim_end
trimmed a b c d la ha ld hd =
    ap (λ (t : Text). reverse (trim_start (reverse t))) (first_trimmed a (b ∷ c ∷ d ∷ []) la ha)
    ∙ ap (λ (t : Text). reverse t) (first_trimmed d (c ∷ b ∷ a ∷ []) ld hd)

-- The path that a board shows, a slash and its room code, is read as that code; the engine's
-- `toUpperCase` must leave the capitals of the code as they are.
pub code_from_location-code :
    (upper : Text → Text) (code : Text) (searched : Option Text)
    → upper code ≡ code
    → is_room_code code ≡ true
    → code_from_location upper (47 ∷ code) searched ≡ some code
unfolding is_room_code
code_from_location-code upper (a ∷ b ∷ c ∷ d ∷ []) searched same valid =
    let ends_a = letter a (ground arith) in
    let ends_d = letter d (ground arith) in
    found upper (a ∷ b ∷ c ∷ d ∷ []) (47 ∷ a ∷ b ∷ c ∷ d ∷ []) searched
      (stripped a b c d ends_a.0 ends_a.1 ends_d.0 ends_d.1)
      (trimmed a b c d ends_a.0 ends_a.1 ends_d.0 ends_d.1) same valid
code_from_location-code upper [] searched same valid = absurd (ground arith)
code_from_location-code upper (a ∷ []) searched same valid = absurd (ground arith)
code_from_location-code upper (a ∷ b ∷ []) searched same valid = absurd (ground arith)
code_from_location-code upper (a ∷ b ∷ c ∷ []) searched same valid = absurd (ground arith)
code_from_location-code upper (a ∷ b ∷ c ∷ d ∷ e ∷ more) searched same valid = absurd (ground arith)

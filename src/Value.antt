-- ===== src/Value.antt =====
-- What crosses the wire as `unknown`: the values that `JSON.parse` makes, and `undefined`, which an
-- absent property reads as. Numbers are opaque to the code. Also packages/core/src/eventShapes.ts
-- and `isRecord` of packages/core/src/text.ts.
pub mod Equality
use klatchr.Prelude.{ℕ, Bool, true, false, ◌&&◌, ◌||◌, Text, codes, same, if◌then◌else◌, ◌==◌}

mutual
  pub data Value : Type 0 where
    undefined : Value
    null : Value
    bool : Bool → Value
    num : ℕ → Value
    str : Text → Value
    arr : Items → Value
    obj : Fields → Value

  pub data Items : Type 0 where
    nil : Items
    cons : Value → Items → Items

  pub data Fields : Type 0 where
    end : Fields
    field : Text → Value → Fields → Fields

-- `typeof value === 'object' && value !== null`.
unfoldable pub is_record : Value → Bool
is_record (arr xs) = true
is_record (obj fs) = true
is_record v = false

unfoldable pub field_of : Text → Fields → Value
field_of k end = undefined
field_of k (field j v fs) = if same j k then v else field_of k fs

-- `value[key]` on a record. No key that the code reads is an array index or on a prototype.
unfoldable pub read : Value → Text → Value
read (obj fs) k = field_of k fs
read v k = undefined

-- `typeof value === 'string'`.
unfoldable pub is_string : Value → Bool
is_string (str t) = true
is_string v = false

unfoldable pub is_boolean : Value → Bool
is_boolean (bool b) = true
is_boolean v = false

-- `value === text`.
unfoldable pub is_text : Value → Text → Bool
is_text (str t) k = same t k
is_text v k = false

-- The string in a value that `is_string` has checked.
unfoldable pub text_of : Value → Text
text_of (str t) = t
text_of v = codes ""

-- `{ type: 'advance' }`, the platform-wide convention.
unfoldable pub is_advance : Value → Bool
is_advance event = is_record event && is_text (read event (codes "type")) (codes "advance")

-- The type of a roster fact, which only the room may send into a game.
unfoldable pub is_roster_type : Value → Bool
is_roster_type event =
    is_record event
    && (is_text (read event (codes "type")) (codes "playerJoined")
        || is_text (read event (codes "type")) (codes "playerLeft"))

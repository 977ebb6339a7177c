-- ===== src/Value/Equality.antt =====
-- `JSON.stringify(a) === JSON.stringify(b)` on values from `JSON.parse` or `undefined`: the printed
-- texts agree exactly if the values do, their keys' order included.
use klatchr.Prelude.{Bool, true, false, ◌&&◌, same, ◌==◌}
use klatchr.Value.{
  Value, Items, Fields, undefined, null, bool, num, str, arr, obj, nil, cons, end, field,
}

same_bool : Bool → Bool → Bool
same_bool true b = b
same_bool false true = false
same_bool false false = true

unfoldable mutual
  unfolding same_bool

  pub same_json : Value → Value → Bool
  same_json undefined undefined = true
  same_json null null = true
  same_json (bool a) (bool b) = same_bool a b
  same_json (num a) (num b) = a == b
  same_json (str a) (str b) = same a b
  same_json (arr a) (arr b) = same_items a b
  same_json (obj a) (obj b) = same_fields a b
  same_json a b = false

  pub same_items : Items → Items → Bool
  same_items nil nil = true
  same_items (cons a xs) (cons b ys) = same_json a b && same_items xs ys
  same_items xs ys = false

  pub same_fields : Fields → Fields → Bool
  same_fields end end = true
  same_fields (field j a fs) (field k b gs) = same j k && (same_json a b && same_fields fs gs)
  same_fields fs gs = false

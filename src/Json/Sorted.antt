-- ===== src/Json/Sorted.antt =====
-- What `json.dumps(v, sort_keys=True)` writes: the members of every object in the order of their
-- names, by code points.
pub mod Laws
use Prim.Native.Char.{code}
use checkseal.Common.{String, Bool, true, false, ◌==◌, ltb, if◌then◌else◌}
use checkseal.Json.{
  Json, null, bool, int, float, str, arr, obj, Items, no_items, item, Fields, no_fields, field,
}

-- `s <= t` for texts
pub before : String → String → Bool
before String.[] t = true
before (String.◌∷◌ c s) String.[] = false
before (String.◌∷◌ c s) (String.◌∷◌ d t) =
    let rest = before s t in if code c == code d then rest else ltb (code c) (code d)

-- A member goes in front of the first name that is not smaller.
unfoldable pub insert_sorted : String → Json → Fields → Fields
unfolding before
insert_sorted k v no_fields = field k v no_fields
insert_sorted k v (field j w d) =
    let rest = insert_sorted k v d in if before k j then field k v (field j w d) else field j w rest

unfoldable mutual
  unfolding insert_sorted before

  pub sort_json : Json → Json
  sort_json (arr xs) = arr (sort_items xs)
  sort_json (obj d) = obj (sort_fields d)
  sort_json null = null
  sort_json (bool b) = bool b
  sort_json (int z) = int z
  sort_json (float f) = float f
  sort_json (str s) = str s

  pub sort_items : Items → Items
  sort_items no_items = no_items
  sort_items (item v vs) = item (sort_json v) (sort_items vs)

  pub sort_fields : Fields → Fields
  sort_fields no_fields = no_fields
  sort_fields (field k v d) = insert_sorted k (sort_json v) (sort_fields d)

-- ===== src/JsonUtils.antt =====
-- json_utils.py: objects whose member names are all different; and `json.loads` without the hook. The
-- names are compared when the whole text is parsed, so a syntax error after a name that stands twice
-- is the error that is raised here.
pub mod Laws
pub mod Sorted
use checkseal.Common.{String, str_eq, if◌then◌else◌}
use checkseal.Common.Outcome.{Outcome, ok, raise, vcr_error, ◌>>=◌}
use checkseal.Json.{
  Json, null, bool, int, float, str, arr, obj, Items, no_items, item, Fields, no_fields, field,
  contains,
}
use checkseal.Platform.{Platform, Bytes}

-- `d[k] = v`: a new name goes to the end, a known one keeps its place.
unfoldable pub insert : String → Json → Fields → Fields
insert k v no_fields = field k v no_fields
insert k v (field j w d) = if str_eq j k then field j v d else field j w (insert k v d)

-- The loop of `_unique_object`, with `result` as it stands.
unfoldable pub unique_from : Fields → Fields → Outcome Fields
unfolding insert contains
unique_from result no_fields = ok result
unique_from result (field k v pairs) =
    let rest = unique_from (insert k v result) pairs in
    if contains k result then raise (vcr_error "duplicate JSON object member") else rest

-- `_unique_object`
unfoldable pub unique_object : Fields → Outcome Fields
unfolding unique_from
unique_object pairs = unique_from no_fields pairs

-- `json.loads(raw, object_pairs_hook=_unique_object)` after the syntax: inner objects first.
unfoldable mutual
  unfolding unique_object

  pub unique_json : Json → Outcome Json
  unique_json (arr xs) = do ys ← unique_items xs; ok (arr ys)
  unique_json (obj pairs) = do built ← unique_members pairs; d ← unique_object built; ok (obj d)
  unique_json null = ok null
  unique_json (bool b) = ok (bool b)
  unique_json (int z) = ok (int z)
  unique_json (float f) = ok (float f)
  unique_json (str s) = ok (str s)

  pub unique_items : Items → Outcome Items
  unique_items no_items = ok no_items
  unique_items (item v vs) = do w ← unique_json v; ws ← unique_items vs; ok (item w ws)

  pub unique_members : Fields → Outcome Fields
  unique_members no_fields = ok no_fields
  unique_members (field k v d) = do w ← unique_json v; e ← unique_members d; ok (field k w e)

-- A dict from pairs without the hook: the last value of a name stays.
pub dict_from : Fields → Fields → Fields
dict_from result no_fields = result
dict_from result (field k v pairs) = dict_from (insert k v result) pairs

unfoldable mutual
  unfolding dict_from

  pub plain_json : Json → Json
  plain_json (arr xs) = arr (plain_items xs)
  plain_json (obj pairs) = obj (dict_from no_fields (plain_members pairs))
  plain_json null = null
  plain_json (bool b) = bool b
  plain_json (int z) = int z
  plain_json (float f) = float f
  plain_json (str s) = str s

  pub plain_items : Items → Items
  plain_items no_items = no_items
  plain_items (item v vs) = item (plain_json v) (plain_items vs)

  pub plain_members : Fields → Fields
  plain_members no_fields = no_fields
  plain_members (field k v d) = field k (plain_json v) (plain_members d)

-- `loads_unique_json(text)`
unfoldable pub loads_unique_json : Platform → String → Outcome Json
loads_unique_json os text = do v ← os.parse_json text; unique_json v

-- `json.loads(raw)` for bytes
unfoldable pub loads_bytes : Platform → Bytes → Outcome Json
loads_bytes os raw = do v ← os.parse_json_bytes raw; ok (plain_json v)

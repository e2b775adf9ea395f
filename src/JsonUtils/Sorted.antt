-- ===== src/JsonUtils/Sorted.antt =====
-- Sorting the members of a document keeps their names apart, and so the document is accepted.
use checkseal.Common.{String, true, ◌≡◌, refl, arith, not, ◌&&◌}
use checkseal.Common.Outcome.{ok, ◌>>=◌, >>=-eq-ok}
use checkseal.Json.{
  Json, null, bool, int, float, str, arr, obj, Items, no_items, item, Fields, no_fields, field,
  contains,
}
use checkseal.Json.Sorted.{insert_sorted, sort_json, sort_items, sort_fields}
use checkseal.Json.Sorted.Laws.{contains-insert_sorted, contains-sort_fields}
use checkseal.JsonUtils.{
  insert, unique_from, unique_object, unique_json, unique_items, unique_members, dict_from,
  plain_json, plain_items, plain_members,
}
use checkseal.JsonUtils.Laws.{
  has_distinct, all_distinct, items_distinct, members_distinct, unique_json-eq, str_eq-sym,
}

has_distinct-insert_sorted :
    (k : String) (v : Json) (d : Fields)
    → has_distinct (insert_sorted k v d) ≡ (not (contains k d) && has_distinct d)
unfolding has_distinct insert_sorted contains
has_distinct-insert_sorted k v no_fields = refl
has_distinct-insert_sorted k v (field j w d) =
    ground (arith, has_distinct-insert_sorted k v d, contains-insert_sorted j k v d, str_eq-sym k j)

has_distinct-sort_fields : (d : Fields) → has_distinct (sort_fields d) ≡ has_distinct d
unfolding has_distinct sort_fields
has_distinct-sort_fields no_fields = refl
has_distinct-sort_fields (field k v d) = ground (
  arith,
  has_distinct-insert_sorted k (sort_json v) (sort_fields d),
  contains-sort_fields k d,
  has_distinct-sort_fields d,
)

members_distinct-insert_sorted :
    (k : String) (v : Json) (d : Fields)
    → members_distinct (insert_sorted k v d) ≡ (all_distinct v && members_distinct d)
unfolding members_distinct insert_sorted
members_distinct-insert_sorted k v no_fields = refl
members_distinct-insert_sorted k v (field j w d) =
    ground (arith, members_distinct-insert_sorted k v d)

mutual
  unfolding all_distinct sort_json

  all_distinct-sort : (v : Json) → all_distinct (sort_json v) ≡ all_distinct v
  all_distinct-sort (arr xs) = items_distinct-sort xs
  all_distinct-sort (obj d) = ground (arith, members_distinct-sort d, has_distinct-sort_fields d)
  all_distinct-sort null = refl
  all_distinct-sort (bool b) = refl
  all_distinct-sort (int z) = refl
  all_distinct-sort (float f) = refl
  all_distinct-sort (str s) = refl

  items_distinct-sort : (vs : Items) → items_distinct (sort_items vs) ≡ items_distinct vs
  items_distinct-sort no_items = refl
  items_distinct-sort (item v vs) = ground (arith, all_distinct-sort v, items_distinct-sort vs)

  members_distinct-sort : (d : Fields) → members_distinct (sort_fields d) ≡ members_distinct d
  members_distinct-sort no_fields = refl
  members_distinct-sort (field k v d) = ground (
    arith,
    members_distinct-insert_sorted k (sort_json v) (sort_fields d),
    all_distinct-sort v,
    members_distinct-sort d,
  )

-- What the hook makes of a document whose names are all different, sorted.
pub unique_json-sort_json :
    (v : Json) → all_distinct v ≡ true → unique_json (sort_json v) ≡ ok (sort_json v)
unique_json-sort_json v h = rw (unique_json-eq (sort_json v), all_distinct-sort v, h) refl

-- Without the hook, repeated names are merged; with names that are all different there are none.
dict_from-unique_from :
    (result pairs : Fields) {d : Fields}
    → unique_from result pairs ≡ ok d
    → dict_from result pairs ≡ d
unfolding dict_from unique_from
dict_from-unique_from result no_fields h = ground arith
dict_from-unique_from result (field k v pairs) {d} h =
    ground (arith, dict_from-unique_from (insert k v result) pairs {d = d})

mutual
  unfolding unique_json plain_json unique_object

  plain_json-unique_json : (v : Json) {w : Json} → unique_json v ≡ ok w → plain_json v ≡ w
  plain_json-unique_json (arr xs) {w} h =
      let (ys, p, q) = >>=-eq-ok (unique_items xs) (λ ys. ok (arr ys)) h in
      ground (arith, plain_items-unique_items xs p)
  plain_json-unique_json (obj pairs) {w} h =
      let (built, p, q) =
        >>=-eq-ok (unique_members pairs) (λ b. unique_object b >>= λ d. ok (obj d)) h in
      let (d, r, s) = >>=-eq-ok (unique_object built) (λ d. ok (obj d)) q in
      ground (arith, plain_members-unique_members pairs p, dict_from-unique_from no_fields built r)
  plain_json-unique_json null h = ground arith
  plain_json-unique_json (bool b) h = ground arith
  plain_json-unique_json (int z) h = ground arith
  plain_json-unique_json (float f) h = ground arith
  plain_json-unique_json (str s) h = ground arith

  plain_items-unique_items :
      (vs : Items) {ws : Items} → unique_items vs ≡ ok ws → plain_items vs ≡ ws
  plain_items-unique_items no_items h = ground arith
  plain_items-unique_items (item v vs) {ws} h =
      let (w, p, q) = >>=-eq-ok (unique_json v) (λ w. unique_items vs >>= λ ws. ok (item w ws)) h in
      let (us, r, s) = >>=-eq-ok (unique_items vs) (λ ws. ok (item w ws)) q in
      ground (arith, plain_json-unique_json v p, plain_items-unique_items vs r)

  plain_members-unique_members :
      (d : Fields) {e : Fields} → unique_members d ≡ ok e → plain_members d ≡ e
  plain_members-unique_members no_fields h = ground arith
  plain_members-unique_members (field k v d) {e} h =
      let (w, p, q) =
        >>=-eq-ok (unique_json v) (λ w. unique_members d >>= λ e. ok (field k w e)) h in
      let (us, r, s) = >>=-eq-ok (unique_members d) (λ e. ok (field k w e)) q in
      ground (arith, plain_json-unique_json v p, plain_members-unique_members d r)

pub plain_json-sort_json :
    (v : Json) → all_distinct v ≡ true → plain_json (sort_json v) ≡ sort_json v
plain_json-sort_json v h = plain_json-unique_json (sort_json v) (unique_json-sort_json v h)

-- ===== src/JsonUtils/Laws.antt =====
-- json_utils.py accepts exactly the documents in which no object names a member twice.
use checkseal.Common.{
  String, Bool, true, false, ◌≡◌, refl, ap, ◌∙◌, arith, str_eq, eq_iff, sym, Bool-cases, inl, inr,
  if◌then◌else◌, ◌&&◌, ◌||◌, not,
}
use checkseal.Common.Outcome.{Outcome, ok, raise, ◌>>=◌, vcr_error, Outcome-cases}
use checkseal.Json.{
  Json, null, bool, int, float, str, arr, obj, Items, no_items, item, Fields, no_fields, field,
  contains,
}
use checkseal.JsonUtils.{
  insert, unique_from, unique_object, unique_json, unique_items, unique_members, loads_unique_json,
  Platform,
}

-- No name occurs twice.
unfoldable pub has_distinct : Fields → Bool
has_distinct no_fields = true
has_distinct (field k v d) = not (contains k d) && has_distinct d

append : Fields → Fields → Fields
append no_fields e = e
append (field k v d) e = field k v (append d e)

-- No name of the second dict occurs in the first.
disjoint : Fields → Fields → Bool
disjoint d no_fields = true
disjoint d (field k v e) = not (contains k d) && disjoint d e

insert-new :
    (k : String) (v : Json) (d : Fields)
    → contains k d ≡ false
    → insert k v d ≡ append d (field k v no_fields)
unfolding insert contains append
insert-new k v no_fields h = refl
insert-new k v (field j w d) h = ground (arith, insert-new k v d)

append-field :
    (d : Fields) (k : String) (v : Json) (e : Fields)
    → append (append d (field k v no_fields)) e ≡ append d (field k v e)
unfolding append
append-field no_fields k v e = refl
append-field (field j w d) k v e = ap (field j w) (append-field d k v e)

append-no_fields : (d : Fields) → append d no_fields ≡ d
unfolding append
append-no_fields no_fields = refl
append-no_fields (field j w d) = ap (field j w) (append-no_fields d)

pub str_eq-sym : (s t : String) → str_eq s t ≡ str_eq t s
str_eq-sym s t = ground (arith, eq_iff s t, eq_iff t s)

contains-append :
    (d : Fields) (j k : String) (v : Json)
    → contains j (append d (field k v no_fields)) ≡ (contains j d || str_eq k j)
unfolding contains append
contains-append no_fields j k v = ground arith
contains-append (field i w d) j k v = ground (arith, contains-append d j k v)

disjoint-append :
    (d : Fields) (k : String) (v : Json) (e : Fields)
    → disjoint (append d (field k v no_fields)) e ≡ (disjoint d e && not (contains k e))
unfolding disjoint contains
disjoint-append d k v no_fields = refl
disjoint-append d k v (field j w e) =
    ground (arith, contains-append d j k v, disjoint-append d k v e, str_eq-sym j k)

disjoint-no_fields : (d : Fields) → disjoint no_fields d ≡ true
unfolding disjoint contains
disjoint-no_fields no_fields = refl
disjoint-no_fields (field k v d) = disjoint-no_fields d

abbrev duplicate : Outcome Fields
duplicate = raise (vcr_error "duplicate JSON object member")

-- What the loop returns from a given state.
abbrev kept : Fields → Fields → Outcome Fields
kept result pairs =
    if disjoint result pairs && has_distinct pairs then ok (append result pairs) else duplicate

kept-step :
    (result : Fields) (k : String) (v : Json) (pairs : Fields)
    → contains k result ≡ false
    → kept (append result (field k v no_fields)) pairs ≡ kept result (field k v pairs)
unfolding disjoint has_distinct
kept-step result k v pairs h =
    rw (disjoint-append result k v pairs, append-field result k v pairs) (ground arith)

loop-step :
    (result : Fields) (k : String) (v : Json) (pairs : Fields)
    → contains k result ≡ false
    → unique_from result (field k v pairs) ≡ unique_from (insert k v result) pairs
unfolding unique_from
loop-step result k v pairs h = ground arith

-- The loop keeps the pairs if their names are new and different, and raises otherwise.
unique_from-eq : (result pairs : Fields) → unique_from result pairs ≡ kept result pairs
unfolding unique_from disjoint has_distinct
unique_from-eq result no_fields = ap ok (sym (append-no_fields result))
unique_from-eq result (field k v pairs) = elim (Bool-cases (contains k result)) [
  | inl h ↦ ground arith
  | inr h ↦
      loop-step result k v pairs h
      ∙ ap (λ d. unique_from d pairs) (insert-new k v result h)
      ∙ unique_from-eq (append result (field k v no_fields)) pairs
      ∙ kept-step result k v pairs h
]

unique_object-eq :
    (pairs : Fields) → unique_object pairs ≡ (if has_distinct pairs then ok pairs else duplicate)
unfolding unique_object append
unique_object-eq pairs = ground (arith, unique_from-eq no_fields pairs, disjoint-no_fields pairs)

-- No object in the document names a member twice.
unfoldable mutual
  pub all_distinct : Json → Bool
  all_distinct (arr xs) = items_distinct xs
  all_distinct (obj d) = members_distinct d && has_distinct d
  all_distinct null = true
  all_distinct (bool b) = true
  all_distinct (int z) = true
  all_distinct (float f) = true
  all_distinct (str s) = true

  pub items_distinct : Items → Bool
  items_distinct no_items = true
  items_distinct (item v vs) = all_distinct v && items_distinct vs

  pub members_distinct : Fields → Bool
  members_distinct no_fields = true
  members_distinct (field k v d) = all_distinct v && members_distinct d

mutual
  unfolding all_distinct unique_json unique_items unique_members

  pub unique_json-eq :
      (v : Json)
      → unique_json v
        ≡ (if all_distinct v then ok v else raise (vcr_error "duplicate JSON object member"))
  unique_json-eq (arr xs) = ground (arith, unique_items-eq xs)
  unique_json-eq (obj d) = ground (arith, unique_members-eq d, unique_object-eq d)
  unique_json-eq null = refl
  unique_json-eq (bool b) = refl
  unique_json-eq (int z) = refl
  unique_json-eq (float f) = refl
  unique_json-eq (str s) = refl

  unique_items-eq :
      (vs : Items)
      → unique_items vs
        ≡ (if items_distinct vs then ok vs else raise (vcr_error "duplicate JSON object member"))
  unique_items-eq no_items = refl
  unique_items-eq (item v vs) = ground (arith, unique_json-eq v, unique_items-eq vs)

  unique_members-eq :
      (d : Fields)
      → unique_members d
        ≡ (if members_distinct d then ok d else raise (vcr_error "duplicate JSON object member"))
  unique_members-eq no_fields = refl
  unique_members-eq (field k v d) = ground (arith, unique_json-eq v, unique_members-eq d)

-- A document is decoded to what it says if no object in it, at any depth, names a member twice, and
-- raises `VCRError` otherwise; what the JSON syntax refuses is refused.
pub loads_unique_json-eq :
    (os : Platform) (text : String)
    → loads_unique_json os text ≡ (
        os.parse_json text >>= λ v.
        if all_distinct v then ok v else raise (vcr_error "duplicate JSON object member"))
unfolding loads_unique_json
loads_unique_json-eq os text = elim (Outcome-cases (os.parse_json text)) [
  | inl (v, e) ↦ rw (e) (unique_json-eq v)
  | inr (x, e) ↦ rw (e) refl
]

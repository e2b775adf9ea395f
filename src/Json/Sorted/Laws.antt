-- ===== src/Json/Sorted/Laws.antt =====
-- Sorting the members changes neither what a name stands for nor which names there are.
use checkseal.Common.{
  String, true, false, ◌≡◌, refl, ap, arith, ◌||◌, str_eq, eq_iff, map, if◌then◌else◌, ◌∷◌,
}
use checkseal.Common.Outcome.{Outcome, ◌>>=◌}
use checkseal.Json.{
  Json, null, str, arr, obj, Items, no_items, item, Fields, no_fields, field, get_or, contains,
  as_dict, as_list, to_list, text_of, equals_text, is_null,
}
use checkseal.Json.Sorted.{before, insert_sorted, sort_json, sort_items, sort_fields}

before_refl : (s : String) → before s s ≡ true
unfolding before
before_refl String.[] = refl
before_refl (String.◌∷◌ c s) = ground (arith, before_refl s)

after-ne : (k j : String) → before k j ≡ false → str_eq k j ≡ false
after-ne k j h = ground (arith, eq_iff k j, before_refl k)

get_or-insert_sorted :
    (x : Json) (j k : String) (v : Json) (d : Fields)
    → get_or x j (insert_sorted k v d) ≡ (if str_eq k j then v else get_or x j d)
unfolding get_or insert_sorted
get_or-insert_sorted x j k v no_fields = refl
get_or-insert_sorted x j k v (field i w d) =
    ground (arith, after-ne k i, get_or-insert_sorted x j k v d, eq_iff k j, eq_iff i j, eq_iff k i)

pub contains-insert_sorted :
    (j k : String) (v : Json) (d : Fields)
    → contains j (insert_sorted k v d) ≡ (str_eq k j || contains j d)
unfolding contains insert_sorted
contains-insert_sorted j k v no_fields = refl
contains-insert_sorted j k v (field i w d) = ground (arith, contains-insert_sorted j k v d)

-- What a name stands for.
pub get_or-sort_fields :
    (x : Json) (j : String) (d : Fields)
    → get_or (sort_json x) j (sort_fields d) ≡ sort_json (get_or x j d)
unfolding get_or sort_fields
get_or-sort_fields x j no_fields = refl
get_or-sort_fields x j (field k v d) = ground (
  arith,
  get_or-insert_sorted (sort_json x) j k (sort_json v) (sort_fields d),
  get_or-sort_fields x j d,
)

pub contains-sort_fields : (j : String) (d : Fields) → contains j (sort_fields d) ≡ contains j d
unfolding contains sort_fields
contains-sort_fields j no_fields = refl
contains-sort_fields j (field k v d) =
    ground
      (arith, contains-insert_sorted j k (sort_json v) (sort_fields d), contains-sort_fields j d)

pub to_list-sort_items : (xs : Items) → to_list (sort_items xs) ≡ map sort_json (to_list xs)
unfolding sort_items
to_list-sort_items no_items = refl
to_list-sort_items (item v vs) = ap (◌∷◌ (sort_json v)) (to_list-sort_items vs)

-- What the type tests make of a sorted value.
pub get-sort_fields :
    (j : String) (d : Fields) → get_or null j (sort_fields d) ≡ sort_json (get_or null j d)
unfolding sort_json
get-sort_fields j d = get_or-sort_fields null j d

pub text_of-sort_json : (v : Json) → text_of (sort_json v) ≡ text_of v
unfolding text_of sort_json
text_of-sort_json (str s) = refl
text_of-sort_json _ = refl

pub is_null-sort_json : (v : Json) → is_null (sort_json v) ≡ is_null v
unfolding is_null sort_json
is_null-sort_json null = refl
is_null-sort_json _ = refl

pub equals_text-sort_json : (v : Json) (t : String) → equals_text (sort_json v) t ≡ equals_text v t
unfolding equals_text sort_json
equals_text-sort_json (str s) t = refl
equals_text-sort_json _ t = refl

-- The test for a dict or a list, and what follows it.
pub as_dict-sort_json {κ} :
    {B : Type κ} (v : Json) (msg : String) (after : Fields → Outcome B)
    → (as_dict (sort_json v) msg >>= after) ≡ (as_dict v msg >>= λ d. after (sort_fields d))
unfolding as_dict sort_json
as_dict-sort_json (obj d) msg after = refl
as_dict-sort_json _ msg after = refl

pub as_list-sort_json {κ} :
    {B : Type κ} (v : Json) (msg : String) (after : Items → Outcome B)
    → (as_list (sort_json v) msg >>= after) ≡ (as_list v msg >>= λ xs. after (sort_items xs))
unfolding as_list sort_json
as_list-sort_json (arr xs) msg after = refl
as_list-sort_json _ msg after = refl

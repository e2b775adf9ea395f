-- ===== src/Json.antt =====
-- The values that Python's `json.loads` returns and `json.dumps` takes.
pub mod Sorted
pub mod Convert
use text.Mathlib.TextPositions.{eq_refl}
use checkseal.Common.{
  ℕ, String, Bool, true, false, Option, none, some, List, [], ◌∷◌, ◌≡◌, refl, str_eq, if◌then◌else◌,
  ◌||◌, arith, ap, eq_iff,
}
use checkseal.Common.Int.{ℤ}
use checkseal.Common.Outcome.{Outcome, ok, raise, vcr_error, ◌>>=◌}

-- A Python float. `finite n d` is the number n / (d + 1): every finite float is a fraction.
pub data Float : Type 0 where
  nan : Float
  infinite : Bool → Float
  finite : ℤ → ℕ → Float

mutual
  pub data Json : Type 0 where
    null : Json
    bool : Bool → Json
    int : ℤ → Json
    float : Float → Json
    str : String → Json
    arr : Items → Json
    obj : Fields → Json

  pub data Items : Type 0 where
    no_items : Items
    item : Json → Items → Items

  -- A dict in insertion order.
  pub data Fields : Type 0 where
    no_fields : Fields
    field : String → Json → Fields → Fields

-- `d.get(k, default)`
unfoldable pub get_or : Json → String → Fields → Json
get_or default k no_fields = default
get_or default k (field j v d) = if str_eq j k then v else get_or default k d

-- `d.get(k)`: Python's `None` is the value of JSON's null.
abbrev pub get : String → Fields → Json
get = get_or null

-- `k in d`
unfoldable pub contains : String → Fields → Bool
contains k no_fields = false
contains k (field j v d) = str_eq j k || contains k d

-- `d[k] = v` for a present value, and nothing for `None`, on a dict that lacks `k`.
abbrev pub optional {ℓ} : {A : Type ℓ} → String → (A → Json) → Option A → Fields
optional k f none = no_fields
optional k f (some a) = field k (f a) no_fields

unfoldable pub fields_of : Json → Option Fields
fields_of (obj d) = some d
fields_of _ = none

unfoldable pub items_of : Json → Option Items
items_of (arr xs) = some xs
items_of _ = none

unfoldable pub text_of : Json → Option String
text_of (str s) = some s
text_of _ = none

-- `v is None`
unfoldable pub is_null : Json → Bool
is_null null = true
is_null _ = false

-- `v == t` for a text `t`
unfoldable pub equals_text : Json → String → Bool
equals_text (str s) t = str_eq s t
equals_text _ t = false

abbrev pub or_raise {ℓ} : {A : Type ℓ} → Option A → String → Outcome A
or_raise none msg = raise (vcr_error msg)
or_raise (some a) msg = ok a

-- `_require(isinstance(v, dict), msg)`, and the dict
unfoldable pub as_dict : Json → String → Outcome Fields
unfolding fields_of
as_dict v msg = or_raise (fields_of v) msg

-- `_require(isinstance(v, list), msg)`, and the list
unfoldable pub as_list : Json → String → Outcome Items
unfolding items_of
as_list v msg = or_raise (items_of v) msg

-- An optional member: `None` stays `None`, and anything else is parsed.
unfoldable pub unless_null {ℓ} : {A : Type ℓ} → (Json → Outcome A) → Json → Outcome (Option A)
unfolding is_null
unless_null f v = if is_null v then ok none else (do a ← f v; ok (some a))

abbrev pub to_list : Items → List Json
to_list no_items = []
to_list (item v vs) = v ∷ to_list vs

abbrev pub of_list : List Json → Items
of_list [] = no_items
of_list (v ∷ vs) = item v (of_list vs)

pub to_list-of_list : (vs : List Json) → to_list (of_list vs) ≡ vs
to_list-of_list [] = refl
to_list-of_list (v ∷ vs) = cc (to_list-of_list vs)

-- An optional member reads back as it was written, if its parser reads what was written.
pub unless_null-optional {ℓ} :
    {A : Type ℓ} (k : String) (write : A → Json) (parse : Json → Outcome A) (o : Option A)
    → ((a : A) → is_null (write a) ≡ false)
    → ((a : A) → o ≡ some a → parse (write a) ≡ ok a)
    → unless_null parse (get k (optional k write o)) ≡ ok o
unfolding unless_null get_or
unless_null-optional k write parse none present reads = refl
unless_null-optional k write parse (some a) present reads =
    rw (eq_refl k, present a, reads a refl) refl

-- What a value is, where a test or a read of it succeeded.
pub as_dict-eq-ok : (v : Json) (msg : String) {d : Fields} → as_dict v msg ≡ ok d → v ≡ obj d
unfolding as_dict
as_dict-eq-ok (obj d) msg h = ground arith
as_dict-eq-ok _ msg h = cc

pub equals_text-true : (v : Json) (t : String) → equals_text v t ≡ true → v ≡ str t
unfolding equals_text
equals_text-true (str s) t h = ap str ((eq_iff s t).0 h)
equals_text-true _ t h = cc

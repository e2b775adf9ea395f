-- ===== src/Model/Predicate.antt =====
-- model.py `Predicate`
use checkseal.Common.{
  String, ◌≡◌, refl, List, [], ◌∷◌, map, arith, not, is_empty, str_eq, eq_iff, All, none, false,
}
use checkseal.Common.Outcome.{Outcome, ok, ◌>>=◌, ◌>>◌, require, for_each, for_each-All, >>=-eq-ok}
use checkseal.Json.{
  Json, str, arr, obj, field, no_fields, get, get_or, as_dict, as_list, to_list, of_list,
  to_list-of_list, Fields,
}
use checkseal.Model.Fields.{within, str_field, str_field-str}
use checkseal.Model.Subject
use checkseal.Model.Subject.{Subject}
use checkseal.Model.CheckEntry
use checkseal.Model.CheckEntry.{CheckEntry}

-- `VCR_VERSION`
abbrev pub vcr_version_0_2 : String
vcr_version_0_2 = "0.2"

pub record Predicate : Type 0 where
  pub subject : Subject
  pub checks : List CheckEntry
  pub vcr_version : String

unfoldable pub to_jsonable : Predicate → Json
to_jsonable p = obj (
    field "vcr_version" (str p.vcr_version) (
      field "subject" (Subject.to_jsonable p.subject)
        (field "checks" (arr (of_list (map CheckEntry.to_jsonable p.checks))) no_fields)))

-- The rest of `from_jsonable`, once the members are a dict and `checks` a list.
from_members : Fields → List Json → Outcome Predicate
from_members d checks_json = do
  require (not (is_empty checks_json)) "predicate.checks: non-empty list"
  version ← str_field none (get_or (str vcr_version_0_2) "vcr_version" d) "vcr_version"
  require (str_eq version vcr_version_0_2) "vcr_version must be '0.2'"
  subject ← Subject.from_jsonable (get "subject" d)
  checks ← for_each CheckEntry.from_jsonable checks_json
  ok (record { subject = subject; checks = checks; vcr_version = version })

from_fields : Fields → Outcome Predicate
unfolding from_members
from_fields d = do
  items ← as_list (get "checks" d) "predicate.checks: non-empty list"
  from_members d (to_list items)

unfoldable pub from_jsonable : Json → Outcome Predicate
unfolding from_fields
from_jsonable v = do d ← as_dict v "predicate: must be an object"; from_fields d

-- The invariant of every parsed predicate.
pub record IsWellFormed (p : Predicate) : Type 0 where
  pub subject : Subject.IsWellFormed p.subject
  pub checks : All CheckEntry.IsWellFormed p.checks
  pub some_check : is_empty p.checks ≡ false
  pub version : p.vcr_version ≡ vcr_version_0_2

for_each-map-to_jsonable :
    (es : List CheckEntry)
    → All CheckEntry.IsWellFormed es
    → for_each CheckEntry.from_jsonable (map CheckEntry.to_jsonable es) ≡ ok es
for_each-map-to_jsonable [] h = refl
for_each-map-to_jsonable (e ∷ es) h =
    rw (CheckEntry.from_jsonable-to_jsonable e h.0, for_each-map-to_jsonable es h.1) refl

is_empty-map : (es : List CheckEntry) → is_empty (map CheckEntry.to_jsonable es) ≡ is_empty es
is_empty-map [] = refl
is_empty-map (e ∷ es) = refl

is_empty-for_each :
    (vs : List Json) {es : List CheckEntry}
    → for_each CheckEntry.from_jsonable vs ≡ ok es
    → is_empty es ≡ is_empty vs
is_empty-for_each [] {es} h = ground arith
is_empty-for_each (v ∷ vs) {es} h = ground arith

-- A well-formed predicate is read back from its JSON form unchanged.
pub Predicate-round_trip : (p : Predicate) → IsWellFormed p → from_jsonable (to_jsonable p) ≡ ok p
unfolding from_jsonable to_jsonable as_dict as_list get_or within
Predicate-round_trip p h =
    rw
      (
        to_list-of_list (map CheckEntry.to_jsonable p.checks),
        is_empty-map p.checks,
        h.some_check,
        str_field-str none p.vcr_version "vcr_version" refl,
        (eq_iff p.vcr_version vcr_version_0_2).1 h.version,
        Subject.from_jsonable-to_jsonable p.subject h.subject,
        for_each-map-to_jsonable p.checks h.checks,
      )
      refl

entries-IsWellFormed :
    (vs : List Json) {es : List CheckEntry}
    → for_each CheckEntry.from_jsonable vs ≡ ok es
    → All CheckEntry.IsWellFormed es
entries-IsWellFormed =
    for_each-All CheckEntry.IsWellFormed CheckEntry.from_jsonable
      (λ v e. CheckEntry.from_jsonable-IsWellFormed v {e = e})

from_members-IsWellFormed :
    (d : Fields) (vs : List Json) {p : Predicate} → from_members d vs ≡ ok p → IsWellFormed p
unfolding from_members
from_members-IsWellFormed d vs {p} h = record {
  subject = Subject.from_jsonable-IsWellFormed (get "subject" d) (ground arith);
  checks = entries-IsWellFormed vs (ground arith);
  some_check = ground (arith, is_empty-for_each vs {es = p.checks});
  version = (eq_iff p.vcr_version vcr_version_0_2).0 (ground arith);
}

-- Whatever `Predicate.from_jsonable` accepts is well formed.
pub Predicate-accepted-IsWellFormed :
    (v : Json) {p : Predicate} → from_jsonable v ≡ ok p → IsWellFormed p
unfolding from_jsonable
Predicate-accepted-IsWellFormed v h =
    let (d, _, q) = >>=-eq-ok (as_dict v "predicate: must be an object") from_fields h in
    let (items, _, r) =
      >>=-eq-ok (as_list (get "checks" d) "predicate.checks: non-empty list")
        (λ items. from_members d (to_list items)) q in
    from_members-IsWellFormed d (to_list items) r

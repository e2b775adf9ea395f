-- ===== src/Model/Evidence.antt =====
-- model.py `Evidence`
use checkseal.Common.{String, ◌≡◌, refl, true, not, Option, none, some, arith, false}
use checkseal.Common.Outcome.{Outcome, ok, ◌>>=◌, ◌>>◌, require}
use checkseal.Json.{
  Json, str, obj, field, get, get_or, contains, as_dict, optional, unless_null, is_null,
  unless_null-optional,
}
use checkseal.Model.Enums.{
  EvidenceKind, Grade, value, of_value, of_value-value, evidence_kind_enum, grade_enum,
}
use checkseal.Model.Fields.{
  is_sha256, within, sha256_field, str_field, digest_obj, sha256_field-str, str_field-str,
  sha256_field-IsSha256,
}

pub record Evidence : Type 0 where
  pub kind : EvidenceKind
  pub grade : Grade
  pub digest : String
  pub uri : Option String

unfoldable pub to_jsonable : Evidence → Json
to_jsonable e = obj (
    field "kind" (str (value e.kind)) (
      field "grade" (str (value e.grade))
        (field "digest" (digest_obj e.digest) (optional "uri" str e.uri))))

unfoldable pub from_jsonable : Json → Outcome Evidence
from_jsonable v = do
  d ← as_dict v "evidence: must be an object"
  require (not (contains "inline" d)) "evidence.inline is forbidden under the N1 profile"
  digest ← as_dict (get "digest" d) "evidence.digest: mandatory object"
  uri ← unless_null (λ t. str_field none t "evidence.uri") (get "uri" d)
  kind_text ← str_field none (get "kind" d) "evidence.kind"
  kind ← of_value kind_text
  grade_text ← str_field none (get "grade" d) "evidence.grade"
  grade ← of_value grade_text
  hex ← sha256_field (get "sha256" digest) "evidence.digest"
  ok (record { kind = kind; grade = grade; digest = hex; uri = uri })

pub record IsWellFormed (e : Evidence) : Type 0 where
  pub digest : is_sha256 e.digest ≡ true

contains-optional_uri : (o : Option String) → contains "inline" (optional "uri" str o) ≡ false
unfolding contains
contains-optional_uri none = refl
contains-optional_uri (some s) = refl

pub from_jsonable-to_jsonable :
    (e : Evidence) → IsWellFormed e → from_jsonable (to_jsonable e) ≡ ok e
unfolding from_jsonable to_jsonable as_dict get_or contains is_null within
from_jsonable-to_jsonable e h =
    rw
      (
        contains-optional_uri e.uri,
        unless_null-optional "uri" str (λ t. str_field none t "evidence.uri") e.uri (λ a. refl)
            (λ a _. str_field-str none a "evidence.uri" refl),
        str_field-str none (value e.kind) "evidence.kind" refl,
        str_field-str none (value e.grade) "evidence.grade" refl,
        of_value-value e.kind,
        of_value-value e.grade,
        sha256_field-str e.digest "evidence.digest" h.digest,
      )
      refl

pub from_jsonable-IsWellFormed : (v : Json) {e : Evidence} → from_jsonable v ≡ ok e → IsWellFormed e
unfolding from_jsonable
from_jsonable-IsWellFormed v h = grind (arith, sha256_field-IsSha256)

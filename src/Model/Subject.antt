-- ===== src/Model/Subject.antt =====
-- model.py `Subject`
use checkseal.Common.{String, ◌≡◌, refl, true, Option, none, some, arith}
use checkseal.Common.Outcome.{Outcome, ok, ◌>>=◌}
use checkseal.Json.{
  Json, str, obj, field, get, get_or, as_dict, optional, unless_null, is_null, unless_null-optional,
}
use checkseal.Model.Fields.{
  is_sha256, within, sha256_field, str_field, parse_subject_kind, digest_obj, sha256_field-str,
  str_field-str, parse_subject_kind-str, sha256_field-IsSha256, str_field-within,
}

pub record Subject : Type 0 where
  pub kind : String
  pub digest : String
  pub name : String
  pub media_type : Option String

unfoldable pub to_jsonable : Subject → Json
to_jsonable s = obj (
    field "kind" (str s.kind) (
      field "digest" (digest_obj s.digest)
        (field "name" (str s.name) (optional "mediaType" str s.media_type))))

unfoldable pub from_jsonable : Json → Outcome Subject
from_jsonable v = do
  d ← as_dict v "subject: must be an object"
  digest ← as_dict (get "digest" d) "subject.digest: must be an object"
  media_type ← unless_null (λ t. str_field none t "subject.mediaType") (get "mediaType" d)
  kind ← parse_subject_kind (get "kind" d)
  hex ← sha256_field (get "sha256" digest) "subject.digest"
  name ← str_field (some 256) (get "name" d) "subject.name"
  ok (record { kind = kind; digest = hex; name = name; media_type = media_type })

-- What every parsed subject satisfies.
pub record IsWellFormed (s : Subject) : Type 0 where
  pub digest : is_sha256 s.digest ≡ true
  pub name : within (some 256) s.name ≡ true

pub from_jsonable-to_jsonable :
    (s : Subject) → IsWellFormed s → from_jsonable (to_jsonable s) ≡ ok s
unfolding from_jsonable to_jsonable as_dict get_or is_null within
from_jsonable-to_jsonable s h =
    rw
      (
        unless_null-optional "mediaType" str (λ t. str_field none t "subject.mediaType")
            s.media_type (λ a. refl) (λ a _. str_field-str none a "subject.mediaType" refl),
        parse_subject_kind-str s.kind,
        sha256_field-str s.digest "subject.digest" h.digest,
        str_field-str (some 256) s.name "subject.name" h.name,
      )
      refl

pub from_jsonable-IsWellFormed : (v : Json) {s : Subject} → from_jsonable v ≡ ok s → IsWellFormed s
unfolding from_jsonable
from_jsonable-IsWellFormed v h = grind (arith, sha256_field-IsSha256, str_field-within)

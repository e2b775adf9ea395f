-- ===== src/Model/Check.antt =====
-- model.py `Check`
use checkseal.Common.{String, ◌≡◌, refl, true, Option, none, arith}
use checkseal.Common.Outcome.{Outcome, ok, ◌>>=◌, ◌>>◌, require}
use checkseal.Json.{
  Json, str, obj, field, get, as_dict, optional, unless_null, get_or, is_null, unless_null-optional,
}
use checkseal.Model.Enums.{CheckKind, value, of_value, of_value-value, check_kind_enum}
use checkseal.Model.Digest.{
  IsDigest?, digest_field, digest_field-obj, digest_field-IsDigest?, IsDigest?-some,
}
use checkseal.Model.CheckId.{valid_check_id}
use checkseal.Model.Fields.{str_field, digest_obj, str_field-str, within}

pub record Check : Type 0 where
  pub id : String
  pub kind : CheckKind
  pub version : String
  pub config_ref : Option String

unfoldable pub to_jsonable : Check → Json
to_jsonable c = obj (
    field "id" (str c.id) (
      field "kind" (str (value c.kind))
        (field "version" (str c.version) (optional "config_ref" digest_obj c.config_ref))))

unfoldable pub from_jsonable : Json → Outcome Check
from_jsonable v = do
  d ← as_dict v "check: must be an object"
  id ← str_field none (get "id" d) "check.id"
  require (valid_check_id id) "check.id: violates ^[a-z0-9]+(/[a-z0-9-]+)*$"
  config_ref ←
      unless_null (digest_field "check.config_ref: must be an object" "check.config_ref")
        (get "config_ref" d)
  kind_text ← str_field none (get "kind" d) "check.kind"
  kind ← of_value kind_text
  version ← str_field none (get "version" d) "check.version"
  ok (record { id = id; kind = kind; version = version; config_ref = config_ref })

pub record IsWellFormed (c : Check) : Type 0 where
  pub id : valid_check_id c.id ≡ true
  pub config_ref : IsDigest? c.config_ref

pub from_jsonable-to_jsonable : (c : Check) → IsWellFormed c → from_jsonable (to_jsonable c) ≡ ok c
unfolding from_jsonable to_jsonable as_dict get_or is_null within
from_jsonable-to_jsonable c h =
    rw
      (
        unless_null-optional "config_ref" digest_obj
            (digest_field "check.config_ref: must be an object" "check.config_ref") c.config_ref
            (λ a. refl)
            (λ a e. digest_field-obj a _ _ (IsDigest?-some c.config_ref a h.config_ref e)),
        str_field-str none c.id "check.id" refl,
        str_field-str none (value c.kind) "check.kind" refl,
        str_field-str none c.version "check.version" refl,
        h.id,
        of_value-value c.kind,
      )
      refl

pub from_jsonable-IsWellFormed : (v : Json) {c : Check} → from_jsonable v ≡ ok c → IsWellFormed c
unfolding from_jsonable
from_jsonable-IsWellFormed v h = grind (arith, digest_field-IsDigest?)

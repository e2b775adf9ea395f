-- ===== src/Model/EnforcedProof.antt =====
-- model.py `EnforcedProof`
use checkseal.Common.{String, ◌≡◌, refl, true, none, arith}
use checkseal.Common.Outcome.{Outcome, ok, ◌>>=◌}
use checkseal.Json.{Json, str, obj, field, no_fields, get, get_or, as_dict}
use checkseal.Model.Fields.{is_sha256, within, sha256_field, str_field}
use checkseal.Model.Fields.{sha256_field-str, str_field-str, sha256_field-IsSha256}

pub record EnforcedProof : Type 0 where
  pub sha256 : String
  pub uri : String

unfoldable pub to_jsonable : EnforcedProof → Json
to_jsonable p = obj (field "sha256" (str p.sha256) (field "uri" (str p.uri) no_fields))

unfoldable pub from_jsonable : Json → Outcome EnforcedProof
from_jsonable v = do
  d ← as_dict v "enforced_proof: must be an object"
  sha256 ← sha256_field (get "sha256" d) "enforced_proof"
  uri ← str_field none (get "uri" d) "enforced_proof.uri"
  ok (record { sha256 = sha256; uri = uri })

pub record IsWellFormed (p : EnforcedProof) : Type 0 where
  pub sha256 : is_sha256 p.sha256 ≡ true

pub from_jsonable-to_jsonable :
    (p : EnforcedProof) → IsWellFormed p → from_jsonable (to_jsonable p) ≡ ok p
unfolding from_jsonable to_jsonable as_dict get_or within
from_jsonable-to_jsonable p h =
    rw
      (
        sha256_field-str p.sha256 "enforced_proof" h.sha256,
        str_field-str none p.uri "enforced_proof.uri" refl,
      )
      refl

pub from_jsonable-IsWellFormed :
    (v : Json) {p : EnforcedProof} → from_jsonable v ≡ ok p → IsWellFormed p
unfolding from_jsonable
from_jsonable-IsWellFormed v h = grind (arith, sha256_field-IsSha256)

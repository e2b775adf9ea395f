-- ===== src/Model/Provenance.antt =====
-- model.py `Provenance`
use checkseal.Common.{String, ◌≡◌, refl, none}
use checkseal.Common.Outcome.{Outcome, ok, ◌>>=◌}
use checkseal.Json.{Json, str, obj, field, no_fields, get, get_or, as_dict}
use checkseal.Model.Enums.{Authority, value, of_value, of_value-value, authority_enum}
use checkseal.Model.Fields.{within, str_field, str_field-str}

pub record Provenance : Type 0 where
  pub authority : Authority
  pub instruction_boundary_kind : String

unfoldable pub to_jsonable : Provenance → Json
to_jsonable p = obj (
    field "authority" (str (value p.authority)) (
      field "instruction_boundary" (obj (field "kind" (str p.instruction_boundary_kind) no_fields))
        no_fields))

unfoldable pub from_jsonable : Json → Outcome Provenance
from_jsonable v = do
  d ← as_dict v "provenance: must be an object"
  boundary ← as_dict (get "instruction_boundary" d) "provenance.instruction_boundary: object"
  authority_text ← str_field none (get "authority" d) "provenance.authority"
  authority ← of_value authority_text
  kind ← str_field none (get "kind" boundary) "instruction_boundary.kind"
  ok (record { authority = authority; instruction_boundary_kind = kind })

pub from_jsonable-to_jsonable : (p : Provenance) → from_jsonable (to_jsonable p) ≡ ok p
unfolding from_jsonable to_jsonable as_dict get_or within
from_jsonable-to_jsonable p =
    rw
      (
        str_field-str none (value p.authority) "provenance.authority" refl,
        of_value-value p.authority,
        str_field-str none p.instruction_boundary_kind "instruction_boundary.kind" refl,
      )
      refl

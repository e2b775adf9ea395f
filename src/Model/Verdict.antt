-- ===== src/Model/Verdict.antt =====
-- model.py `Verdict`
use checkseal.Common.{◌≡◌, refl, Option, none, some, arith, subst}
use checkseal.Common.Outcome.{Outcome, ok, ◌>>=◌}
use checkseal.Json.{
  Json, str, obj, field, get, get_or, as_dict, optional, unless_null, is_null, unless_null-optional,
}
use checkseal.Model.Enums.{
  Result, Enforced, value, of_value, of_value-value, result_enum, enforced_enum,
}
use checkseal.Model.Fields.{within, str_field, str_field-str}
use checkseal.Model.EnforcedProof
use checkseal.Model.EnforcedProof.{EnforcedProof}

pub record Verdict : Type 0 where
  pub result : Result
  pub enforced : Enforced
  pub enforced_proof : Option EnforcedProof

unfoldable pub to_jsonable : Verdict → Json
to_jsonable v = obj (
    field "result" (str (value v.result)) (
      field "enforced" (str (value v.enforced))
        (optional "enforced_proof" EnforcedProof.to_jsonable v.enforced_proof)))

unfoldable pub from_jsonable : Json → Outcome Verdict
from_jsonable v = do
  d ← as_dict v "verdict: must be an object"
  result_text ← str_field none (get "result" d) "verdict.result"
  result ← of_value result_text
  enforced_text ← str_field none (get "enforced" d) "verdict.enforced"
  enforced ← of_value enforced_text
  proof ← unless_null EnforcedProof.from_jsonable (get "enforced_proof" d)
  ok (record { result = result; enforced = enforced; enforced_proof = proof })

abbrev pub IsWellFormed? : Option EnforcedProof → Type 0
IsWellFormed? none = Unit
IsWellFormed? (some p) = EnforcedProof.IsWellFormed p

pub record IsWellFormed (v : Verdict) : Type 0 where
  pub proof : IsWellFormed? v.enforced_proof

IsWellFormed?-some :
    (o : Option EnforcedProof) (p : EnforcedProof)
    → IsWellFormed? o
    → o ≡ some p
    → EnforcedProof.IsWellFormed p
IsWellFormed?-some none p h e = cc
IsWellFormed?-some (some q) p h e = subst EnforcedProof.IsWellFormed {x = q} (cc e) h

optional_proof-IsWellFormed? :
    (v : Json) {o : Option EnforcedProof}
    → unless_null EnforcedProof.from_jsonable v ≡ ok o
    → IsWellFormed? o
unfolding unless_null
optional_proof-IsWellFormed? v {o = none} e = tt
optional_proof-IsWellFormed? v {o = some p} e =
    grind (arith, EnforcedProof.from_jsonable-IsWellFormed)

pub from_jsonable-to_jsonable :
    (v : Verdict) → IsWellFormed v → from_jsonable (to_jsonable v) ≡ ok v
unfolding from_jsonable to_jsonable as_dict get_or is_null within EnforcedProof.to_jsonable
from_jsonable-to_jsonable v h =
    rw
      (
        unless_null-optional "enforced_proof" EnforcedProof.to_jsonable EnforcedProof.from_jsonable
            v.enforced_proof (λ a. refl)
            (λ p e.
              EnforcedProof.from_jsonable-to_jsonable p
                (IsWellFormed?-some v.enforced_proof p h.proof e)),
        str_field-str none (value v.result) "verdict.result" refl,
        str_field-str none (value v.enforced) "verdict.enforced" refl,
        of_value-value v.result,
        of_value-value v.enforced,
      )
      refl

pub from_jsonable-IsWellFormed : (v : Json) {r : Verdict} → from_jsonable v ≡ ok r → IsWellFormed r
unfolding from_jsonable
from_jsonable-IsWellFormed v h = grind (arith, optional_proof-IsWellFormed?)

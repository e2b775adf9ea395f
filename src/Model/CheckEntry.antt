-- ===== src/Model/CheckEntry.antt =====
-- model.py `CheckEntry`
use checkseal.Common.{◌≡◌, refl, arith}
use checkseal.Common.Outcome.{Outcome, ok, ◌>>=◌, >>=-eq-ok}
use checkseal.Json.{Json, obj, field, no_fields, get, get_or, as_dict, Fields}
use checkseal.Model.Check
use checkseal.Model.Check.{Check}
use checkseal.Model.Verdict
use checkseal.Model.Verdict.{Verdict}
use checkseal.Model.Evidence
use checkseal.Model.Evidence.{Evidence}
use checkseal.Model.Runtime
use checkseal.Model.Runtime.{Runtime}
use checkseal.Model.Provenance
use checkseal.Model.Provenance.{Provenance}

pub record CheckEntry : Type 0 where
  pub check : Check
  pub verdict : Verdict
  pub evidence : Evidence
  pub runtime : Runtime
  pub provenance : Provenance

unfoldable pub to_jsonable : CheckEntry → Json
to_jsonable e = obj (
    field "check" (Check.to_jsonable e.check) (
      field "verdict" (Verdict.to_jsonable e.verdict) (
        field "evidence" (Evidence.to_jsonable e.evidence) (
          field "runtime" (Runtime.to_jsonable e.runtime)
            (field "provenance" (Provenance.to_jsonable e.provenance) no_fields)))))

from_fields : Fields → Outcome CheckEntry
from_fields d = do
  check ← Check.from_jsonable (get "check" d)
  verdict ← Verdict.from_jsonable (get "verdict" d)
  evidence ← Evidence.from_jsonable (get "evidence" d)
  runtime ← Runtime.from_jsonable (get "runtime" d)
  provenance ← Provenance.from_jsonable (get "provenance" d)
  ok (record {
    check = check;
    verdict = verdict;
    evidence = evidence;
    runtime = runtime;
    provenance = provenance;
  })

unfoldable pub from_jsonable : Json → Outcome CheckEntry
unfolding from_fields
from_jsonable v = do d ← as_dict v "check entry: must be an object"; from_fields d

pub record IsWellFormed (e : CheckEntry) : Type 0 where
  pub check : Check.IsWellFormed e.check
  pub verdict : Verdict.IsWellFormed e.verdict
  pub evidence : Evidence.IsWellFormed e.evidence
  pub runtime : Runtime.IsWellFormed e.runtime

pub from_jsonable-to_jsonable :
    (e : CheckEntry) → IsWellFormed e → from_jsonable (to_jsonable e) ≡ ok e
unfolding from_jsonable to_jsonable as_dict get_or
from_jsonable-to_jsonable e h =
    rw
      (
        Check.from_jsonable-to_jsonable e.check h.check,
        Verdict.from_jsonable-to_jsonable e.verdict h.verdict,
        Evidence.from_jsonable-to_jsonable e.evidence h.evidence,
        Runtime.from_jsonable-to_jsonable e.runtime h.runtime,
        Provenance.from_jsonable-to_jsonable e.provenance,
      )
      refl

from_fields-IsWellFormed : (d : Fields) {e : CheckEntry} → from_fields d ≡ ok e → IsWellFormed e
unfolding from_fields
from_fields-IsWellFormed d {e} h = record {
  check = Check.from_jsonable-IsWellFormed (get "check" d) (ground arith);
  verdict = Verdict.from_jsonable-IsWellFormed (get "verdict" d) (ground arith);
  evidence = Evidence.from_jsonable-IsWellFormed (get "evidence" d) (ground arith);
  runtime = Runtime.from_jsonable-IsWellFormed (get "runtime" d) (ground arith);
}

pub from_jsonable-IsWellFormed :
    (v : Json) {e : CheckEntry} → from_jsonable v ≡ ok e → IsWellFormed e
unfolding from_jsonable
from_jsonable-IsWellFormed v h =
    let (d, p, q) = >>=-eq-ok (as_dict v "check entry: must be an object") from_fields h in
    from_fields-IsWellFormed d q

-- The parts of an entry are decoded from the members of their names.
pub from_jsonable-parts :
    (d : Fields) {e : CheckEntry}
    → from_jsonable (obj d) ≡ ok e
    → (Check.from_jsonable (get "check" d) ≡ ok e.check)
      × (Verdict.from_jsonable (get "verdict" d) ≡ ok e.verdict)
      × (Evidence.from_jsonable (get "evidence" d) ≡ ok e.evidence)
      × (Runtime.from_jsonable (get "runtime" d) ≡ ok e.runtime)
      × (Provenance.from_jsonable (get "provenance" d) ≡ ok e.provenance)
unfolding from_jsonable from_fields as_dict
from_jsonable-parts d {e} h = ground arith

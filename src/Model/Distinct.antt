-- ===== src/Model/Distinct.antt =====
-- The JSON form of a record never names a member twice.
use checkseal.Common.{true, ◌≡◌, refl, arith, List, [], ◌∷◌, map}
use checkseal.Json.{of_list, contains}
use checkseal.JsonUtils.Laws.{all_distinct, items_distinct, has_distinct}
use checkseal.Model.Subject
use checkseal.Model.Subject.{Subject}
use checkseal.Model.Check
use checkseal.Model.Check.{Check}
use checkseal.Model.EnforcedProof
use checkseal.Model.EnforcedProof.{EnforcedProof}
use checkseal.Model.Verdict
use checkseal.Model.Verdict.{Verdict}
use checkseal.Model.Evidence
use checkseal.Model.Evidence.{Evidence}
use checkseal.Model.Runtime
use checkseal.Model.Runtime.{Runtime}
use checkseal.Model.Provenance
use checkseal.Model.Provenance.{Provenance}
use checkseal.Model.CheckEntry
use checkseal.Model.CheckEntry.{CheckEntry}
use checkseal.Model.Predicate
use checkseal.Model.Predicate.{Predicate}

pub Subject_distinct : (s : Subject) → all_distinct (Subject.to_jsonable s) ≡ true
unfolding all_distinct has_distinct contains Subject.to_jsonable
Subject_distinct s = ground arith

Check_distinct : (c : Check) → all_distinct (Check.to_jsonable c) ≡ true
unfolding all_distinct has_distinct contains Check.to_jsonable
Check_distinct c = ground arith

EnforcedProof_distinct : (p : EnforcedProof) → all_distinct (EnforcedProof.to_jsonable p) ≡ true
unfolding all_distinct has_distinct contains EnforcedProof.to_jsonable
EnforcedProof_distinct p = refl

Verdict_distinct : (v : Verdict) → all_distinct (Verdict.to_jsonable v) ≡ true
unfolding all_distinct has_distinct contains Verdict.to_jsonable EnforcedProof.to_jsonable
Verdict_distinct v = ground arith

Evidence_distinct : (e : Evidence) → all_distinct (Evidence.to_jsonable e) ≡ true
unfolding all_distinct has_distinct contains Evidence.to_jsonable
Evidence_distinct e = ground arith

Runtime_distinct : (r : Runtime) → all_distinct (Runtime.to_jsonable r) ≡ true
unfolding all_distinct has_distinct contains Runtime.to_jsonable
Runtime_distinct r = ground arith

Provenance_distinct : (p : Provenance) → all_distinct (Provenance.to_jsonable p) ≡ true
unfolding all_distinct has_distinct contains Provenance.to_jsonable
Provenance_distinct p = refl

pub CheckEntry_distinct : (e : CheckEntry) → all_distinct (CheckEntry.to_jsonable e) ≡ true
unfolding all_distinct has_distinct contains CheckEntry.to_jsonable
CheckEntry_distinct e = ground (
  arith,
  Check_distinct e.check,
  Verdict_distinct e.verdict,
  Evidence_distinct e.evidence,
  Runtime_distinct e.runtime,
  Provenance_distinct e.provenance,
)

entries_distinct :
    (es : List CheckEntry) → items_distinct (of_list (map CheckEntry.to_jsonable es)) ≡ true
unfolding all_distinct
entries_distinct [] = refl
entries_distinct (e ∷ es) = ground (arith, CheckEntry_distinct e, entries_distinct es)

pub Predicate_distinct : (p : Predicate) → all_distinct (Predicate.to_jsonable p) ≡ true
unfolding all_distinct has_distinct contains Predicate.to_jsonable
Predicate_distinct p = ground (arith, Subject_distinct p.subject, entries_distinct p.checks)

-- ===== src/HbResolve/Report.antt =====
-- The part of `resolve_enforced_proof` that reads the decoded report.
use Prim.Native.Char.{Char}
use checkseal.Json.Convert.{truthy}
use checkseal.Common.{
  ℕ, ◌*◌, suc, String, Bool, true, false, Option, none, some, not, ◌&&◌, ◌||◌, leb, ltb, str_eq,
  if◌then◌else◌,
}
use checkseal.Common.Int.{pos}
use checkseal.Common.Text.{starts_with, split_once, rsplit_last, drop, all_chars, nonempty}
use checkseal.Json.{
  Json, Float, finite, int, float, str, Fields, get, text_of, fields_of, equals_text,
}
use checkseal.Model.CheckEntry.{CheckEntry}
use checkseal.HbResolve.Early.{
  ProofResolution, unresolved, Early, go, ◌>>=◌, ◌>>◌, check, check_some, returned,
}

-- `float(ees) if isinstance(ees, (int, float)) and not isinstance(ees, bool) else None`. An int too
-- large for a float is out of range as well, and takes the same branch below.
unfoldable pub float_of : Json → Option Float
float_of (int z) = some (finite z 0)
float_of (float f) = some f
float_of _ = none

-- `math.isfinite(f) and 0.0 <= f <= 1.0`
unfoldable pub in_unit : Float → Bool
in_unit (finite (pos n) d) = leb n (suc d)
in_unit _ = false

-- `ees_f < EES_FLOOR`, with the floor 0.5
unfoldable pub below_floor : Float → Bool
below_floor (finite (pos n) d) = ltb (2 * n) (suc d)
below_floor _ = true

unfoldable pub score_of : Json → Option Float
unfolding float_of in_unit
score_of v = elim (float_of v) [ none ↦ none | some f ↦ if in_unit f then some f else none ]

-- A non-negative integer that is no bool.
unfoldable pub count_of : Json → Option ℕ
count_of (int (pos n)) = some n
count_of _ = none

module _ (is_digit : Char → Bool) where
  -- `_infer_threat_class`
  infer_threat_class : String → String
  infer_threat_class corpus = elim (split_once b'-' corpus) [
    | none ↦ corpus
    | some (head, rest) ↦
        let number = drop 3 head in
        if starts_with head "asi" && (nonempty number && all_chars is_digit number)
        then rest
        else corpus
  ]

  -- `report.get("threat_class") or _infer_threat_class(corpus)`
  unfoldable pub threat_class_of : Fields → String → Json
  unfolding infer_threat_class truthy
  threat_class_of report corpus =
      let declared = get "threat_class" report in
      if truthy declared then declared else str (infer_threat_class corpus)

-- `_check_threat_class`
unfoldable pub check_threat_class : CheckEntry → String
check_threat_class entry = rsplit_last b'/' entry.check.id

-- `declared_sha == entry.check.config_ref`, both being texts
unfoldable pub binds : Json → Option String → Bool
binds declared none = false
binds declared (some ref) = equals_text declared ref

with_score : String → String → Float → String → ProofResolution
with_score corpus threat ees reason = record (unresolved reason) {
  corpus = some corpus;
  threat_class = some threat;
  ees = some ees;
}

with_corpus : String → String → ProofResolution
with_corpus corpus reason = record (unresolved reason) { corpus = some corpus }

-- The counts, the floor and the binding, once the class matches.
unfoldable pub check_measurement :
    CheckEntry → Fields → String → String → Float → Early ProofResolution
unfolding with_score with_corpus
check_measurement entry report corpus threat ees = do
  verdicts ←
      check_some (fields_of (get "verdicts" report))
        (with_corpus corpus "gate unproven: report.verdicts must be an object")
  let counts_message =
      with_corpus corpus "gate unproven: verdict counts must be non-negative integers"
  enforced ← check_some (count_of (get "enforced" verdicts)) counts_message
  advised ← check_some (count_of (get "advised" verdicts)) counts_message
  permitted ← check_some (count_of (get "permitted" verdicts)) counts_message
  errors ← check_some (count_of (get "errors" verdicts)) counts_message
  total ←
      check_some (count_of (get "n" report))
        (with_corpus corpus "gate unproven: report.n must be a non-negative integer")
  check (not (leb enforced 0 || ltb 0 advised))
      (with_score corpus threat ees "gate unproven: config does not enforce")
  check (not (below_floor ees))
      (with_score corpus threat ees "gate unproven: enforcement-efficacy score below floor")
  check (binds (get "config_sha256" report) entry.check.config_ref)
      (with_score corpus threat ees "gate unproven (weak binding)")
  go (record {
    resolved = true;
    reason = "enforced_proof resolved: config_sha256 bound";
    corpus = some corpus;
    threat_class = some threat;
    ees = some ees;
    strong_binding = true;
  })

module _ (is_digit : Char → Bool) where
  unfoldable pub check_report : CheckEntry → Fields → Early ProofResolution
  unfolding with_corpus with_score
  check_report entry report = do
    check (equals_text (get "schema" report) "harnessbench-report/v1")
        (unresolved "gate unproven: not a HarnessBench report")
    corpus ←
        check_some (text_of (get "corpus" report))
          (unresolved "gate unproven: report.corpus must be a non-empty string")
    check (nonempty corpus) (unresolved "gate unproven: report.corpus must be a non-empty string")
    threat ←
        check_some (text_of (threat_class_of is_digit report corpus))
          (unresolved "gate unproven: report.threat_class must be a string")
    ees ←
        check_some (score_of (get "ees" report))
          (with_corpus corpus "gate unproven: report.ees must be finite and between 0 and 1")
    check (str_eq threat (check_threat_class entry))
        (with_score corpus threat ees "gate unproven (corpus mismatch)")
    check_measurement entry report corpus threat ees

  unfoldable pub resolve_report : CheckEntry → Json → ProofResolution
  unfolding check_report
  resolve_report entry v = returned do
    report ←
        check_some (fields_of v)
          (unresolved "gate unproven: HarnessBench report must be a JSON object")
    check_report entry report

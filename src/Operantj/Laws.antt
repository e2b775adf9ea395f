-- ===== src/Operantj/Laws.antt =====
-- What comes out of a receipt.
use checkseal.Common.{ap, sym, ◌∙◌, true, ◌≡◌, arith, none, String}
use checkseal.Common.Outcome.{ok, ◌>>=◌, >>=-eq-ok}
use checkseal.Json.{
  Fields, field, no_fields, obj, str, get, get_or, as_dict, is_null, equals_text, equals_text-true,
  as_dict-eq-ok,
}
use checkseal.Model.Enums.{
  CheckKind, Enforced, EvidenceKind, Grade, Authority, Runner, value, result_enum, check_kind_enum,
  enforced_enum, evidence_kind_enum, grade_enum, authority_enum, runner_enum,
}
use checkseal.Model.CheckEntry
use checkseal.Model.CheckEntry.{CheckEntry}
use checkseal.Operantj.{
  vcr_v01_predicate, digest_of_node, dict_or_empty, config_field, judge_check, judge_verdict,
  judge_evidence, judge_runtime, judge_provenance, entry_dict, entry_from_predicate,
  entry_from_vcr_v01,
}
use checkseal.Operantj.Members.{
  judge_check-eq, judge_verdict-eq, judge_evidence-eq, judge_runtime-eq, judge_provenance-eq,
  digest_of_node-IsSha256, judge_config-eq, config_fields,
}

-- What a judge's entry claims.
pub record IsJudgeEntry (runner : Runner) (e : CheckEntry) : Type 0 where
  pub well_formed : CheckEntry.IsWellFormed e
  pub kind : e.check.kind ≡ CheckKind.review
  pub enforced : e.verdict.enforced ≡ Enforced.observed
  pub enforced_proof : e.verdict.enforced_proof ≡ none
  pub evidence : e.evidence.kind ≡ EvidenceKind.transcript_digest
  pub grade : e.evidence.grade ≡ Grade.grade_b
  pub run_by : e.runtime.runner ≡ runner
  pub authority : e.provenance.authority ≡ Authority.agent

-- What an entry says is what the record says.
pub record Translates (runner : Runner) (pred : Fields) (e : CheckEntry) : Type 0 where
  pub entry : IsJudgeEntry runner e
  pub id : get "id" (dict_or_empty (get "check" pred)) ≡ str e.check.id
  pub version : get "version" (dict_or_empty (get "check" pred)) ≡ str e.check.version
  pub config :
      config_field (get "config_ref" (dict_or_empty (get "check" pred)))
      ≡ ok (config_fields e.check.config_ref)
  pub result : get "result" (dict_or_empty (get "verdict" pred)) ≡ str (value e.verdict.result)
  pub ran_at : get "ran_at" (dict_or_empty (get "runtime" pred)) ≡ str e.runtime.ran_at
  pub digest :
      digest_of_node (get "digest" (dict_or_empty (get "evidence" pred))) "evidence.digest"
      ≡ ok e.evidence.digest

-- A record of an observed check, with no pointer to a proof.
pub record IsObserved (pred : Fields) : Type 0 where
  pub enforced : get "enforced" (dict_or_empty (get "verdict" pred)) ≡ str "observed"
  pub proof : is_null (get "enforced_proof" pred) ≡ true
  pub verdict_proof : is_null (get "enforced_proof" (dict_or_empty (get "verdict" pred))) ≡ true

entry_dict-Translates :
    (pred config : Fields) (hex : String) (runner : Runner) {e : CheckEntry}
    → config_field (get "config_ref" (dict_or_empty (get "check" pred))) ≡ ok config
    → digest_of_node (get "digest" (dict_or_empty (get "evidence" pred))) "evidence.digest" ≡ ok hex
    → CheckEntry.from_jsonable (
        entry_dict
          (dict_or_empty (get "check" pred))
          config
          (dict_or_empty (get "verdict" pred))
          (dict_or_empty (get "runtime" pred))
          hex
          runner)
      ≡ ok e
    → Translates runner pred e
unfolding get_or
entry_dict-Translates pred config hex runner {e} configured dig h =
    let check = dict_or_empty (get "check" pred) in
    let verdict = dict_or_empty (get "verdict" pred) in
    let runtime = dict_or_empty (get "runtime" pred) in
    let (c, v, ev, r, p) =
      CheckEntry.from_jsonable-parts
        (field "check" (judge_check check config) (
          field "verdict" (judge_verdict verdict) (
            field "evidence" (judge_evidence hex) (
              field "runtime" (judge_runtime runtime runner)
                (field "provenance" judge_provenance no_fields)))))
        h in
    let (check_kind, id, version) = judge_check-eq check config c in
    let (observed, no_proof, result) = judge_verdict-eq verdict v in
    let (kind, grade, digest) =
      judge_evidence-eq hex
        (digest_of_node-IsSha256 (get "digest" (dict_or_empty (get "evidence" pred)))
          "evidence.digest" dig)
        ev in
    let (run_by, ran_at) = judge_runtime-eq runtime runner r in
    record {
      entry = record {
        well_formed =
            CheckEntry.from_jsonable-IsWellFormed
              (entry_dict check config verdict runtime hex runner) h;
        kind = check_kind;
        enforced = observed;
        enforced_proof = no_proof;
        evidence = kind;
        grade = grade;
        run_by = run_by;
        authority = judge_provenance-eq p;
      };
      id = id;
      version = version;
      config =
          judge_config-eq check (get "config_ref" check) {config = config} {c = e.check} configured
            c;
      result = result;
      ran_at = ran_at;
      digest = dig ∙ ap ok (sym digest);
    }

entry_from_predicate-Translates :
    (pred : Fields) (runner : Runner) {e : CheckEntry}
    → entry_from_predicate pred runner ≡ ok e
    → IsObserved pred × Translates runner pred e
unfolding entry_from_predicate
entry_from_predicate-Translates pred runner {e} h =
    let verdict = dict_or_empty (get "verdict" pred) in
    let enforced : equals_text (get "enforced" verdict) "observed" ≡ true = ground arith in
    let proof : is_null (get "enforced_proof" pred) ≡ true = ground arith in
    let verdict_proof : is_null (get "enforced_proof" verdict) ≡ true = ground arith in
    let after = λ (config : Fields) (hex : String). CheckEntry.from_jsonable (
      entry_dict (dict_or_empty (get "check" pred)) config verdict
        (dict_or_empty (get "runtime" pred)) hex runner) in
    let (config, a, b) =
      >>=-eq-ok (config_field (get "config_ref" (dict_or_empty (get "check" pred))))
        (λ config.
          digest_of_node (get "digest" (dict_or_empty (get "evidence" pred))) "evidence.digest"
          >>= λ hex. after config hex)
        (rw (enforced, proof, verdict_proof) at h) in
    let (hex, c, d) =
      >>=-eq-ok
        (digest_of_node (get "digest" (dict_or_empty (get "evidence" pred))) "evidence.digest")
        (λ hex. after config hex) b in
    (
      record {
        enforced = equals_text-true (get "enforced" verdict) "observed" enforced;
        proof = proof;
        verdict_proof = verdict_proof;
      },
      entry_dict-Translates pred config hex runner a c d,
    )

pub entry_from_vcr_v01-Translates :
    (runner : Runner) (vcr : Fields) {e : CheckEntry}
    → entry_from_vcr_v01 runner vcr ≡ ok e
    → (get "predicateType" vcr ≡ str vcr_v01_predicate)
      × ((pred : Fields) × (get "predicate" vcr ≡ obj pred)
          × IsObserved pred
          × Translates runner pred e)
unfolding entry_from_vcr_v01
entry_from_vcr_v01-Translates runner vcr {e} h =
    let type : equals_text (get "predicateType" vcr) vcr_v01_predicate ≡ true = ground arith in
    let (pred, p, q) =
      >>=-eq-ok (as_dict (get "predicate" vcr) "record has no predicate object")
        (λ pred. entry_from_predicate pred runner) (rw (type) at h) in
    let (observed, translates) = entry_from_predicate-Translates pred runner q in
    (
      equals_text-true (get "predicateType" vcr) vcr_v01_predicate type,
      (
        pred,
        as_dict-eq-ok (get "predicate" vcr) "record has no predicate object" p,
        observed,
        translates,
      ),
    )

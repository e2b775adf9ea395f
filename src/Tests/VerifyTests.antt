-- ===== src/Tests/VerifyTests.antt =====
-- hbresolve.py and verify.py at concrete inputs.
use checkseal.Common.{◌≡◌, refl, true, false, Bool, [], ◌∷◌, none, some}
use checkseal.Json.Convert.{truthy}
use checkseal.Common.Outcome.{ok}
use checkseal.Tests.Data.{proof, gate, one_gate, overclaimed, machine, key, signer_identity}
use checkseal.Model.CheckEntry.{CheckEntry}
use checkseal.HbResolve.{ReportLoader, resolve_enforced_proof}
use checkseal.HbResolve.Resolved.{IsResolved, resolve_enforced_proof-IsResolved}
use checkseal.Verify.Report.{EntryFinding, VerificationReport, passes}
use checkseal.Verify.Entries.{
  ReExecutor, profile_of, fail_finding, entry_finding, verify_entry, verify_entries,
  reexecution_step, proof_step,
}
use checkseal.Verify.Entries.Laws.{IsTrusted, verify_entry-IsTrusted}
use checkseal.Verify.Entries.Gating.{AllReport, verify_entries-AllReport}
use checkseal.AgentTooling.{is_agent_tooling_subject, validate_agent_tooling_profile}
use checkseal.Profile.{each}
use checkseal.Common.Text.{strip, is_space}
use checkseal.Json.{as_dict, as_list, is_null}
use checkseal.JsonUtils.{unique_json}
use checkseal.Dsse.{envelope_from_jsonable}
use checkseal.Model.Enums.{is_ok}
use checkseal.Dsse.{Envelope}
use checkseal.JsonUtils.{loads_unique_json}
use checkseal.Statement.{build_statement}
use checkseal.Statement.Laws.{parse_statement-build_statement}
use checkseal.Tests.ModelTests.{one_gate-IsWellFormed}
use checkseal.Verify.Local.{
  SignatureCheck, load_envelope, predicate_from_envelope, check_subject, live_digest,
  verify_signature_local, verify_local_seal, local_report,
}
use checkseal.Verify.Local.Genuine.{IsGenuine, verify_local_seal-IsGenuine}
use checkseal.HbResolve.Early.{ProofResolution}
use checkseal.HbResolve.Report.{
  resolve_report, check_report, check_measurement, threat_class_of, score_of, float_of, in_unit,
  check_threat_class, below_floor, binds, count_of,
}
use checkseal.JsonUtils.{loads_bytes, plain_json, insert}
use checkseal.Json.{fields_of, equals_text, get_or, text_of, finite}
use checkseal.Common.Int.{pos}
use checkseal.Common.Text.{split_once, starts_with, drop, all_chars, rsplit_last}
use checkseal.Trust.{check_invariant_e1}
use checkseal.Verify.Entries.{reexecution_step, proof_step, grade_c_step}

abbrev pub reexecute : ReExecutor
reexecute entry = ok true

abbrev pub fetch : ReportLoader
fetch uri = ok (0 ∷ [])

abbrev resolution : ProofResolution
resolution = record {
  resolved = true;
  reason = "enforced_proof resolved: config_sha256 bound";
  corpus = some "asi05-destructive-execution";
  threat_class = some "destructive-execution";
  ees = some (finite (pos 1) 0);
  strong_binding = true;
}

-- The proof of the gate resolves.
gate-resolves : resolve_enforced_proof machine gate proof (some fetch) ≡ ok resolution
unfolding resolve_enforced_proof loads_bytes plain_json resolve_report check_report
    check_measurement fields_of equals_text get_or insert text_of threat_class_of score_of float_of
    in_unit truthy split_once starts_with drop all_chars check_threat_class rsplit_last below_floor
    binds count_of
gate-resolves = refl

resolve_enforced_proof-IsResolved_example : IsResolved machine fetch gate proof
resolve_enforced_proof-IsResolved_example =
    resolve_enforced_proof-IsResolved machine fetch gate proof {res = resolution} gate-resolves refl

abbrev pub gate_finding : EntryFinding
gate_finding = entry_finding gate "confirmed" "enforced_proof resolved: config_sha256 bound" true

gate-trusted :
    (attested : Bool)
    → verify_entry machine (some reexecute) (some fetch) attested true gate ≡ ok gate_finding
unfolding verify_entry reexecution_step proof_step grade_c_step check_invariant_e1
gate-trusted attested = rw (gate-resolves) refl

verify_entry-IsTrusted_example :
    (true ≡ true) × IsTrusted machine (some reexecute) (some fetch) gate
unfolding entry_finding
verify_entry-IsTrusted_example =
    verify_entry-IsTrusted machine (some reexecute) (some fetch) false gate {f = gate_finding} true
      (gate-trusted false) refl

pub gate-verified :
    (attested : Bool)
    → verify_entries machine one_gate (some reexecute) (some fetch) attested true
      ≡ ok (gate_finding ∷ [])
unfolding verify_entries profile_of is_agent_tooling_subject
gate-verified attested = rw (gate-trusted attested) refl

verify_entries-AllReport_example : AllReport one_gate.checks (gate_finding ∷ [])
verify_entries-AllReport_example =
    verify_entries-AllReport machine (some reexecute) (some fetch) false true one_gate
      {fs = gate_finding ∷ []} (gate-verified false)

-- A skill that claims an enforced gate.
overclaimed-refused :
    verify_entries machine overclaimed (some reexecute) (some fetch) false true
    ≡ ok (fail_finding gate "agent-tooling profile violated" ∷ [])
unfolding verify_entries profile_of is_agent_tooling_subject validate_agent_tooling_profile each
    starts_with
overclaimed-refused = refl

abbrev signature_check : SignatureCheck
signature_check = record {
  valid = true;
  reason = "Ed25519 signature valid over DSSE PAE";
  identity = some signer_identity;
}

abbrev report : VerificationReport
report = local_report (true, "live digest matches") signature_check (gate_finding ∷ [])

abbrev pub envelope : Envelope
envelope = record {
  payload = 2 ∷ [];
  payload_type = "application/vnd.in-toto+json";
  signatures =
      record { keyid = none; sig = 1 ∷ []; cert = none }
      ∷ record { keyid = none; sig = 2 ∷ []; cert = none }
      ∷ [];
}

pub envelope-loaded : load_envelope machine "seal" ≡ ok envelope
unfolding load_envelope loads_unique_json strip is_space unique_json envelope_from_jsonable as_dict
    text_of get_or as_list is_null
envelope-loaded = refl

pub statement-loaded : loads_unique_json machine "statement" ≡ ok (build_statement one_gate)
unfolding loads_unique_json build_statement unique_json checkseal.Model.Predicate.to_jsonable
    checkseal.Model.Subject.to_jsonable checkseal.Model.CheckEntry.to_jsonable
    checkseal.Model.Check.to_jsonable checkseal.Model.Verdict.to_jsonable
    checkseal.Model.EnforcedProof.to_jsonable checkseal.Model.Evidence.to_jsonable
    checkseal.Model.Runtime.to_jsonable checkseal.Model.Provenance.to_jsonable
statement-loaded = refl

pub predicate-parsed : predicate_from_envelope machine envelope ≡ ok one_gate
unfolding predicate_from_envelope
predicate-parsed =
    rw (statement-loaded) (parse_statement-build_statement one_gate one_gate-IsWellFormed)

pub subject-checked :
    check_subject machine one_gate (some "essay.md") none ≡ ok (true, "live digest matches")
unfolding check_subject live_digest
subject-checked = refl

signature-checked : verify_signature_local machine envelope key ≡ ok signature_check
unfolding verify_signature_local
signature-checked = refl

seal-verified :
    verify_local_seal machine "seal" key (some "essay.md") none (some reexecute) (some fetch)
    ≡ ok report
unfolding verify_local_seal
seal-verified =
    rw (envelope-loaded, predicate-parsed, subject-checked, signature-checked, gate-verified false)
      refl

verify_local_seal-IsGenuine_example :
    IsGenuine machine "seal" key (some "essay.md") none (some reexecute) (some fetch) false
unfolding passes entry_finding is_ok
verify_local_seal-IsGenuine_example =
    verify_local_seal-IsGenuine machine "seal" key (some "essay.md") none (some reexecute)
      (some fetch) false {report = report} seal-verified refl

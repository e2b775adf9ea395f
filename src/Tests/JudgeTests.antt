-- ===== src/Tests/JudgeTests.antt =====
-- operantj.py at a concrete receipt.
use checkseal.Common.{◌≡◌, refl, true, false, String, [], ◌∷◌, none, some, all_of}
use checkseal.Common.Text.{
  lower, strip, starts_with, is_space, lower_char, all_chars, drop, is_hex, length, splitlines,
  universal_newlines,
}
use checkseal.Common.Outcome.{ok}
use checkseal.Json.{
  Fields, str, arr, obj, item, no_items, field, no_fields, get_or, is_null, equals_text, as_dict,
  contains, text_of, fields_of, items_of, unless_null,
}
use checkseal.JsonUtils.{plain_json, insert}
use checkseal.Json.Convert.{truthy, str_of}
use checkseal.Model.Enums.{
  CheckKind, Result, Enforced, EvidenceKind, Grade, Authority, Runner, is_ok, of_value, find_member,
}
use checkseal.Model.Fields.{is_sha256, sha256_field, str_field, within, parse_subject_kind}
use checkseal.Model.CheckId.{valid_check_id}
use checkseal.Model.Digest.{digest_field}
use checkseal.Model.Check
use checkseal.Model.Verdict
use checkseal.Model.EnforcedProof
use checkseal.Model.Evidence
use checkseal.Model.Runtime
use checkseal.Model.Provenance
use checkseal.Model.CheckEntry
use checkseal.Model.CheckEntry.{CheckEntry}
use checkseal.Model.Subject
use checkseal.Model.Subject.{Subject}
use checkseal.Platform.{Platform}
use checkseal.Sign.Local.{local_signer, local_verify}
use checkseal.Seal.{Seal, sign_local}
use checkseal.Verify.Report.{VerificationReport, passes}
use checkseal.Verify.Local.{verify_local_seal}
use checkseal.Operantj.{
  vcr_v01_predicate, dict_or_empty, entry_from_vcr_v01, entry_from_predicate, config_field,
  digest_of_node, bare_hex, without_prefix, read_receipt, read_text, read_records, parse_record,
  receipt_subject, recorded_name, ingest_operant_j_receipt,
}
use checkseal.Operantj.Ingest.{IsSitting, judge_predicate, ingest_operant_j_receipt-IsSitting}
use checkseal.Operantj.Sealed.{ingest_operant_j_receipt-verifies}
use checkseal.Tests.Data.{digest}
use checkseal.Tests.ModelTests.{digest-is_sha256}
use checkseal.Tests.World.{
  world, scheme, seven, seven_verifier, world-Decodes, world-IsWritten, world-DecodesBase64,
  world-new_signer, world-verifier_of, world-AcceptsSigned,
}

-- The predicate of a record, with an enforcement. It names an authority and a kind of evidence that
-- its entry does not take over.
abbrev ruling : String → Fields
ruling enforced =
    field "check" (obj (field "id" (str "judge/refusal") (field "version" (str "1.0") no_fields))) (
      field "verdict"
        (obj (field "result" (str "fail") (field "enforced" (str enforced) no_fields)))
        (field "evidence"
          (obj (
            field "kind" (str "judge-verdict-digest")
              (field "digest" (obj (field "sha256" (str digest) no_fields)) no_fields)))
          (field "runtime" (obj (field "ran_at" (str "2026-08-24T00:00:00Z") no_fields))
            (field "provenance" (obj (field "authority" (str "operator") no_fields)) no_fields))))

abbrev statement : String → Fields
statement enforced = field "predicateType" (str vcr_v01_predicate) (
    field "subject" (arr (item (obj (field "name" (str "judge-7b") no_fields)) no_items))
      (field "predicate" (obj (ruling enforced)) no_fields))

abbrev entry : CheckEntry
entry = record {
  check = record {
    id = "judge/refusal";
    kind = CheckKind.review;
    version = "1.0";
    config_ref = none;
  };
  verdict = record { result = Result.fail; enforced = Enforced.observed; enforced_proof = none };
  evidence = record {
    kind = EvidenceKind.transcript_digest;
    grade = Grade.grade_b;
    digest = digest;
    uri = none;
  };
  runtime = record {
    ran_at = "2026-08-24T00:00:00Z";
    runner = Runner.fleet;
    duration_ms = none;
    env_digest = none;
  };
  provenance = record {
    authority = Authority.agent;
    instruction_boundary_kind = "stored_data_not_instructions";
  };
}

abbrev receipt : Subject
receipt = record {
  kind = "artifact";
  digest = digest;
  name = "judge-7b";
  media_type = some "application/x-operant-j-vcr+jsonl";
}

abbrev court : Platform
court = world (judge_predicate receipt (entry ∷ [])) (obj (statement "observed"))

entry-translated : entry_from_vcr_v01 Runner.fleet (statement "observed") ≡ ok entry
unfolding entry_from_vcr_v01 equals_text get_or as_dict entry_from_predicate dict_or_empty is_null
    config_field digest_of_node text_of is_sha256 lower strip without_prefix starts_with is_space
    lower_char CheckEntry.from_jsonable all_chars drop is_hex length contains fields_of unless_null
    Check.from_jsonable valid_check_id digest_field EnforcedProof.from_jsonable find_member of_value
    Evidence.from_jsonable sha256_field str_field within Provenance.from_jsonable
    Runtime.duration_field Runtime.from_jsonable Verdict.from_jsonable bare_hex
entry-translated = refl

receipt-read : read_receipt court "receipt.jsonl" ≡ ok (statement "observed" ∷ [])
unfolding read_receipt read_text read_records parse_record splitlines universal_newlines strip
    is_space plain_json insert as_dict
receipt-read = refl

receipt-named : recorded_name court (statement "observed" ∷ []) ≡ "judge-7b"
unfolding recorded_name items_of dict_or_empty fields_of get_or truthy str_of
receipt-named = refl

receipt-bound : receipt_subject court "receipt.jsonl" "judge-7b" ≡ ok receipt
unfolding receipt_subject Subject.from_jsonable as_dict get_or unless_null is_null str_field text_of
    within parse_subject_kind of_value find_member sha256_field lower strip is_space is_sha256
    lower_char all_chars is_hex length
receipt-bound = refl

ingested :
    ingest_operant_j_receipt court "receipt.jsonl" none Runner.fleet ≡ ok (receipt, entry ∷ [])
unfolding ingest_operant_j_receipt
ingested = rw (receipt-read, entry-translated, receipt-named, receipt-bound) refl

ingest_operant_j_receipt-IsSitting_example :
    IsSitting court "receipt.jsonl" Runner.fleet receipt (entry ∷ [])
ingest_operant_j_receipt-IsSitting_example =
    ingest_operant_j_receipt-IsSitting court "receipt.jsonl" none Runner.fleet {subject = receipt}
      {entries = entry ∷ []} (λ _. digest-is_sha256) ingested

ingest_operant_j_receipt-verifies_example :
    (seal : Seal) × (report : VerificationReport) × (sign_local court
        (judge_predicate receipt (entry ∷ []))
        (local_signer court scheme seven)
        false
      ≡ ok seal)
    × (verify_local_seal court "seal"
          (local_verify court scheme seven_verifier)
          (some "receipt.jsonl")
          none
          none
          none
        ≡ ok report)
    × (passes true report ≡ true)
    × (passes false report ≡ all_of (λ e. is_ok e.verdict.result) (entry ∷ []))
ingest_operant_j_receipt-verifies_example =
    let p = judge_predicate receipt (entry ∷ []) in
    let json = obj (statement "observed") in
    ingest_operant_j_receipt-verifies court scheme 7 seven seven_verifier "receipt.jsonl" "seal"
      none Runner.fleet receipt (entry ∷ []) (λ _. digest-is_sha256) ingested
      (world-new_signer p json) (world-verifier_of p json) (world-AcceptsSigned p json)
      (world-DecodesBase64 p json) refl (world-Decodes p json) (world-IsWritten p json)

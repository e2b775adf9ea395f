-- ===== src/Skillscan.antt =====
-- skillscan.py: from the report of a scanner to a predicate, with the identity taken from the bundle.
pub mod Laws
use checkseal.Common.{
  String, ◌<>◌, Bool, true, false, not, ◌&&◌, ◌||◌, List, [], ◌∷◌, Option, none, some, is_empty,
  str_eq, if◌then◌else◌,
}
use checkseal.Common.Outcome.{
  Outcome, ok, raise, vcr_error, json_decode_error, unicode_decode_error, ◌>>=◌, ◌>>◌, require,
  for_each,
}
use checkseal.Json.{Json, Fields, obj, get, as_dict, as_list, to_list}
use checkseal.JsonUtils.{plain_json}
use checkseal.Model.Enums.{
  Runner, Authority, CheckKind, Enforced, EvidenceKind, Grade, Result, SubjectKind, value,
  subject_kind_enum,
}
use checkseal.Model.Fields.{str_field, sha256_field}
use checkseal.Model.Subject.{Subject}
use checkseal.Model.CheckEntry.{CheckEntry}
use checkseal.Model.Predicate.{Predicate, vcr_version_0_2}
use checkseal.AgentTooling.{bundle_manifest_media_type, validate_agent_tooling_profile}
use checkseal.Bundle.{TreeEntry, canonical_manifest}
use checkseal.Platform.{Platform, Bytes}

abbrev pub report_schema : String
report_schema = "skillscan-report/v1"

-- `_RESULTS.get(result)`
unfoldable pub scan_result : String → Option Result
scan_result s =
    if str_eq s "pass"
    then some Result.pass
    else if str_eq s "fail"
    then some Result.fail
    else if str_eq s "error"
    then some Result.error
    else none

abbrev pub result_or_raise : Option Result → Outcome Result
result_or_raise none = raise (vcr_error "report check.result: not in pass/fail/error")
result_or_raise (some r) = ok r

pub record SkillscanSeed : Type 0 where
  pub predicate : Predicate
  pub report_digest : String
  pub manifest_bytes : Option Bytes

-- What the file system shows at the path of a bundle.
pub data BundlePath : Type 0 where
  directory : List TreeEntry → BundlePath
  file : Outcome Bytes → BundlePath
  missing : BundlePath

-- The body of the loop over the checks of a report.
unfoldable pub validate_report_check : Json → Outcome (Unit {0})
validate_report_check v = do
  c ← as_dict v "report check: must be an object"
  str_field none (get "id" c) "report check.id" >>= λ _. ok tt
  result ← str_field none (get "result" c) "report check.result"
  result_or_raise (scan_result result) >>= λ _. ok tt

-- `except (UnicodeDecodeError, json.JSONDecodeError)`
abbrev pub undecodable_as_vcr_error : Outcome Json → Outcome Json
undecodable_as_vcr_error (raise json_decode_error) = raise (vcr_error "not valid UTF-8 JSON")
undecodable_as_vcr_error (raise unicode_decode_error) = raise (vcr_error "not valid UTF-8 JSON")
undecodable_as_vcr_error other = other

-- `path.is_dir()` wants a manifest's media type.
abbrev pub is_manifest_type : String → Bool
is_manifest_type media_type = str_eq media_type bundle_manifest_media_type

abbrev pub is_first_class : String → Bool
is_first_class kind =
    str_eq kind (value SubjectKind.skill_bundle) || str_eq kind (value SubjectKind.mcp_server)

-- One entry of the predicate, from a check of the report.
unfoldable pub scan_entry :
    Fields → String → String → Authority → Runner → Json → Outcome CheckEntry
scan_entry report config_ref report_digest authority runner v = do
  c ← as_dict v "report check: must be an object"
  id ← str_field none (get "id" c) "report check.id"
  version ← str_field none (get "scanner_version" report) "report.scanner_version"
  text ← str_field none (get "result" c) "report check.result"
  result ← result_or_raise (scan_result text)
  ran_at ← str_field none (get "ran_at" report) "report.ran_at"
  ok (record {
    check = record {
      id = id;
      kind = CheckKind.review;
      version = version;
      config_ref = some config_ref;
    };
    verdict = record { result = result; enforced = Enforced.observed; enforced_proof = none };
    evidence = record {
      kind = EvidenceKind.log_digest;
      grade = Grade.grade_b;
      digest = report_digest;
      uri = none;
    };
    runtime = record { ran_at = ran_at; runner = runner; duration_ms = none; env_digest = none };
    provenance = record {
      authority = authority;
      instruction_boundary_kind = "stored_data_not_instructions";
    };
  })

module _ (os : Platform) (nfc : String → String) where
  decode_report : Bytes → Outcome Json
  decode_report report_bytes = do
    text ← os.decode_utf8 report_bytes
    v ← os.parse_json text
    ok (plain_json v)

  unfoldable pub parse_report : Bytes → Outcome Fields
  unfolding decode_report
  parse_report report_bytes = do
    v ← undecodable_as_vcr_error (decode_report report_bytes)
    d ← as_dict v "skillscan report: must be an object"
    schema ← str_field none (get "schema" d) "report.schema"
    require (str_eq schema report_schema) "report.schema: expected skillscan-report/v1"
    str_field none (get "scanner" d) "report.scanner" >>= λ _. ok tt
    str_field none (get "scanner_version" d) "report.scanner_version" >>= λ _. ok tt
    str_field none (get "ran_at" d) "report.ran_at" >>= λ _. ok tt
    as_dict (get "subject" d) "report.subject: must be an object" >>= λ _. ok tt
    rules ← as_dict (get "ruleset" d) "report.ruleset: must be an object"
    sha256_field (get "config_sha256" rules) "report.ruleset.config_sha256" >>= λ _. ok tt
    checks ← as_list (get "checks" d) "report.checks: non-empty list"
    require (not (is_empty (to_list checks))) "report.checks: non-empty list"
    for_each validate_report_check (to_list checks) >>= λ _. ok tt
    ok d

  -- The identity of the bundle: the manifest's bytes for a directory, and the digest.
  unfoldable pub bundle_identity : String → BundlePath → Outcome (Option Bytes × String)
  bundle_identity media_type (BundlePath.directory paths) = do
    require (is_manifest_type media_type) "directory bundle must use the manifest media_type"
    identity ← canonical_manifest os nfc paths
    ok (some identity.0, identity.1)
  bundle_identity media_type (BundlePath.file read) = do
    content ← read
    ok (none, os.sha256_hex content)
  bundle_identity media_type BundlePath.missing = raise (vcr_error "bundle path does not exist")

  -- The subject, if the bundle has the digest that the report claims.
  unfoldable pub bind_bundle :
      BundlePath → String → String → String → String → Outcome (Subject × Option Bytes)
  bind_bundle bundle kind name claimed media_type = do
    identity ← bundle_identity media_type bundle
    require (str_eq identity.1 claimed) "REFUSED: the scanned bytes are not these bytes"
    ok (
      record { kind = kind; digest = identity.1; name = name; media_type = some media_type },
      identity.0,
    )

  unfoldable pub derive_subject : Fields → BundlePath → Outcome (Subject × Option Bytes)
  derive_subject report bundle = do
    rsub ← as_dict (get "subject" report) "report.subject: must be an object"
    kind ← str_field none (get "kind" rsub) "report.subject.kind"
    require (is_first_class kind) "report.subject.kind: new emissions use the first-class kinds"
    name ← str_field (some 256) (get "name" rsub) "report.subject.name"
    claimed ← sha256_field (get "digest" rsub) "report.subject.digest"
    media_type ← str_field none (get "media_type" rsub) "report.subject.media_type"
    bind_bundle bundle kind name claimed media_type

  unfoldable pub seed_from_report : Bytes → BundlePath → Authority → Runner → Outcome SkillscanSeed
  seed_from_report report_bytes bundle authority runner = do
    report ← parse_report report_bytes
    subject ← derive_subject report bundle
    rules ← as_dict (get "ruleset" report) "report.ruleset: must be an object"
    config_ref ← sha256_field (get "config_sha256" rules) "report.ruleset.config_sha256"
    checks ← as_list (get "checks" report) "report.checks: non-empty list"
    entries ←
        for_each (scan_entry report config_ref (os.sha256_hex report_bytes) authority runner)
          (to_list checks)
    let predicate : Predicate = record {
      subject = subject.0;
      checks = entries;
      vcr_version = vcr_version_0_2;
    }
    validate_agent_tooling_profile false predicate
    ok (record {
      predicate = predicate;
      report_digest = os.sha256_hex report_bytes;
      manifest_bytes = subject.1;
    })

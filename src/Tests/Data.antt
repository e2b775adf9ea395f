-- ===== src/Tests/Data.antt =====
-- A predicate with an enforced check, its proof's report, and an environment in which it verifies.
use checkseal.Common.{zero, suc, String, false, [], ◌∷◌, none, some, str_eq, if◌then◌else◌, ◌==◌}
use checkseal.Common.Int.{pos}
use checkseal.Common.Text.{between}
use checkseal.Common.Outcome.{Outcome, ok, raise, vcr_error}
use checkseal.Json.{Json, str, int, arr, obj, item, no_items, field, no_fields}
use checkseal.Model.Enums.{CheckKind, Result, Enforced, EvidenceKind, Grade, Authority, Runner}
use checkseal.Model.Subject.{Subject}
use checkseal.Model.EnforcedProof.{EnforcedProof}
use checkseal.Model.CheckEntry.{CheckEntry}
use checkseal.Model.Predicate.{Predicate}
use checkseal.Statement.{build_statement}
use checkseal.Platform.{Platform, Bytes}
use checkseal.Sign.{SigningTier, Identity, SignatureVerifier}

abbrev pub digest : String
digest = "00112233445566778899aabbccddeeff00112233445566778899aabbccddeeff"

abbrev pub proof : EnforcedProof
proof = record { sha256 = digest; uri = "hb.json" }

abbrev pub gate : CheckEntry
gate = record {
  check = record {
    id = "guard/destructive-execution";
    kind = CheckKind.guard;
    version = "1.0";
    config_ref = some digest;
  };
  verdict = record {
    result = Result.pass;
    enforced = Enforced.enforced;
    enforced_proof = some proof;
  };
  evidence = record {
    kind = EvidenceKind.exit_code;
    grade = Grade.grade_a;
    digest = digest;
    uri = none;
  };
  runtime = record {
    ran_at = "2026-08-24T00:00:00Z";
    runner = Runner.ci;
    duration_ms = some 12;
    env_digest = some digest;
  };
  provenance = record {
    authority = Authority.operator;
    instruction_boundary_kind = "stored_data_not_instructions";
  };
}

-- A review-time scan: observed, grade B.
abbrev pub scan_check : CheckEntry
scan_check = record {
  check = record {
    id = "scan/prompt-injection";
    kind = CheckKind.review;
    version = "0.3";
    config_ref = some digest;
  };
  verdict = record { result = Result.fail; enforced = Enforced.observed; enforced_proof = none };
  evidence = record {
    kind = EvidenceKind.log_digest;
    grade = Grade.grade_b;
    digest = digest;
    uri = some "https://example.org/log";
  };
  runtime = record {
    ran_at = "2026-08-24T00:00:00Z";
    runner = Runner.fleet;
    duration_ms = none;
    env_digest = none;
  };
  provenance = record {
    authority = Authority.agent;
    instruction_boundary_kind = "stored_data_not_instructions";
  };
}

abbrev pub essay : Subject
essay = record { kind = "artifact"; digest = digest; name = "essay/stranded"; media_type = none }

abbrev pub skill : Subject
skill = record {
  kind = "skill_bundle";
  digest = digest;
  name = "skill-demo";
  media_type = some "application/vnd.checkseal.bundle-manifest+json";
}

abbrev pub sealed : Predicate
sealed = record { subject = essay; checks = gate ∷ scan_check ∷ []; vcr_version = "0.2" }

abbrev pub one_gate : Predicate
one_gate = record { subject = essay; checks = gate ∷ []; vcr_version = "0.2" }

abbrev pub scanned : Predicate
scanned = record { subject = skill; checks = scan_check ∷ []; vcr_version = "0.2" }

-- A skill that claims an enforced gate: the profile forbids it.
abbrev pub overclaimed : Predicate
overclaimed = record { subject = skill; checks = gate ∷ []; vcr_version = "0.2" }

abbrev pub hb_report : Json
hb_report = obj (
    field "schema" (str "harnessbench-report/v1") (
      field "corpus" (str "asi05-destructive-execution") (
        field "ees" (int (pos 1)) (
          field "verdicts"
            (obj (
              field "enforced" (int (pos 46)) (
                field "advised" (int (pos 0))
                  (field "permitted" (int (pos 3)) (field "errors" (int (pos 0)) no_fields)))))
            (field "n" (int (pos 49)) (field "config_sha256" (str digest) no_fields))))))

abbrev pub envelope_json : Json
envelope_json = obj (
    field "payload" (str "cGF5bG9hZA==") (
      field "payloadType" (str "application/vnd.in-toto+json") (
        field "signatures"
          (arr (
            item (obj (field "sig" (str "YmFk") no_fields))
              (item (obj (field "sig" (str "Z29vZA==") no_fields)) no_items)))
          no_fields)))

abbrev pub bundle_json : Json
bundle_json = obj (
    field "verificationMaterial"
      (obj (
        field "tlogEntries"
          (arr (item (obj (field "integratedTime" (str "1700000000") no_fields)) no_items))
          no_fields))
      no_fields)

-- `digest` stands for every hash; the seal's first line is `envelope`, and its payload a statement.
abbrev pub machine : Platform
machine = record {
  sha256_hex = λ _. digest;
  encode_utf8 = λ _. 97 ∷ [];
  decode_utf8 = λ _. ok "statement";
  parse_json = λ text.
      if str_eq text "envelope"
      then ok envelope_json
      else if str_eq text "bundle"
      then ok bundle_json
      else ok (build_statement one_gate);
  parse_json_bytes = λ _. ok hb_report;
  dump_json = λ _. "statement";
  dump_ascii = λ _. "envelope";
  text_of_value = λ _. "value";
  decode_base64 = λ text. if str_eq text "YmFk" then ok (1 ∷ []) else ok (2 ∷ []);
  encode_base64 = λ b. elim b [ [] ↦ "" | c ∷ _ ↦ if c == 1 then "YmFk" else "Z29vZA==" ];
  read_file = λ _. ok (98 ∷ []);
  read_first_line = λ _. ok "envelope";
  int_of_text = λ _. ok (pos 1700000000);
  is_digit = between 48 57;
}

abbrev pub signer_identity : Identity
signer_identity = record {
  tier = SigningTier.t1;
  subject = "ed25519:0011223344556677";
  issuer = none;
  attested_authority = false;
}

-- Accepts the signature with the byte 2.
abbrev accepts : Bytes → Outcome Identity
accepts (suc (suc zero) ∷ []) = ok signer_identity
accepts _ = raise (vcr_error "Ed25519 signature verification failed")

abbrev pub key : SignatureVerifier
key signed sig = accepts sig.sig

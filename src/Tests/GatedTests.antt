-- ===== src/Tests/GatedTests.antt =====
-- verify.py where the seal is not what it should be, and a seal over a skill.
use checkseal.Common.{
  String, Bool, ◌≡◌, ◌≢◌, refl, true, false, [], ◌∷◌, none, some, All, str_eq, if◌then◌else◌,
  Option,
}
use checkseal.Common.Int.{pos}
use checkseal.Common.Text.{strip, is_space, starts_with}
use checkseal.Common.Outcome.{ok, raise, vcr_error}
use checkseal.Json.{as_dict, as_list, is_null, text_of, fields_of, get_or}
use checkseal.Json.Convert.{int_of}
use checkseal.JsonUtils.{loads_unique_json, unique_json, plain_json, insert}
use checkseal.Model.Predicate
use checkseal.Model.Subject
use checkseal.Model.CheckEntry
use checkseal.Model.Check
use checkseal.Model.Verdict
use checkseal.Model.EnforcedProof
use checkseal.Model.Evidence
use checkseal.Model.Runtime
use checkseal.Model.Provenance
use checkseal.Platform.{Platform}
use checkseal.Trust.{check_invariant_e1}
use checkseal.Profile.{validate_n1_profile, each}
use checkseal.AgentTooling.{is_agent_tooling_subject, validate_agent_tooling_profile}
use checkseal.AgentTooling.Laws.{IsScanCheck}
use checkseal.Sign.{SignatureVerifier}
use checkseal.Dsse.{envelope_from_jsonable}
use checkseal.HbResolve.{ReportLoader}
use checkseal.Statement.{build_statement}
use checkseal.Statement.Laws.{parse_statement-build_statement}
use checkseal.Verify.Report.{EntryFinding, VerificationReport, passes}
use checkseal.Verify.Freshness.{freshness, integrated_time, is_fresh}
use checkseal.Verify.Entries.{
  ReExecutor, entry_finding, verify_entry, verify_entries, profile_of, reexecution_step, proof_step,
  grade_c_step,
}
use checkseal.Verify.Local.{
  load_envelope, predicate_from_envelope, check_subject, live_digest, verify_signature_local,
  verify_local_seal, local_report,
}
use checkseal.Verify.Local.Gated.{verify_local_seal-IsGated}
use checkseal.Verify.Local.Tooling.{verify_local_seal-IsScanCheck}
use checkseal.Verify.Keyless.{keyless_report, verify_bundle_keyless, verify_keyless_seal}
use checkseal.Verify.Keyless.Gated.{verify_keyless_seal-IsGated}
use checkseal.Tests.Data.{
  gate, one_gate, scanned, scan_check, machine, key, signer_identity, envelope_json,
}
use checkseal.Tests.VerifyTests.{
  reexecute, fetch, envelope, envelope-loaded, predicate-parsed, subject-checked,
}
use checkseal.Tests.ModelTests.{scanned-IsWellFormed}
use checkseal.Tests.KeylessTests.{verify_dsse, now, keyless_identity, payload-parsed}

-- A verifier that accepts no signature.
abbrev refuse : SignatureVerifier
refuse signed sig = raise (vcr_error "Ed25519 signature verification failed")

abbrev closed_text : String
closed_text = "not-run (authentication, subject binding, or freshness failed)"

abbrev closed_finding : EntryFinding
closed_finding = entry_finding gate closed_text closed_text false

gate-closed :
    (attested : Bool)
    → verify_entries machine one_gate (some reexecute) (some fetch) attested false
      ≡ ok (closed_finding ∷ [])
unfolding verify_entries verify_entry reexecution_step proof_step grade_c_step check_invariant_e1
    profile_of is_agent_tooling_subject
gate-closed attested = refl

abbrev forged : VerificationReport
forged =
    local_report (true, "live digest matches")
      (record { valid = false; reason = "Ed25519 signature verification failed"; identity = none })
      (closed_finding ∷ [])

forged-verified :
    verify_local_seal machine "seal" refuse (some "essay.md") none (some reexecute) (some fetch)
    ≡ ok forged
unfolding verify_local_seal verify_signature_local
forged-verified = rw (envelope-loaded, predicate-parsed, subject-checked, gate-closed false) refl

verify_local_seal-IsGated_example :
    All (λ f. f.trusted ≡ false) (closed_finding ∷ [])
    × ((r : Option ReExecutor) (l : Option ReportLoader)
        → verify_local_seal machine "seal" refuse (some "essay.md") none r l ≡ ok forged)
verify_local_seal-IsGated_example =
    verify_local_seal-IsGated machine "seal" refuse (some "essay.md") none (some reexecute)
      (some fetch) {report = forged} forged-verified refl

-- A minute after the log entry, against a bound of half a minute.
abbrev stale : VerificationReport
stale =
    keyless_report (true, "live digest matches") (false, "STALE") keyless_identity
      (closed_finding ∷ [])

bundle-stale : freshness machine "bundle" (some (pos 30)) now ≡ ok (false, "STALE")
unfolding freshness integrated_time is_fresh plain_json get_or fields_of insert int_of
bundle-stale = refl

stale-verified :
    verify_keyless_seal machine verify_dsse "bundle" "dev@example.org" "https://issuer.example.org"
      (some "essay.md")
      none
      (some reexecute)
      (some fetch)
      (some (pos 30))
      now
    ≡ ok stale
unfolding verify_keyless_seal verify_bundle_keyless
stale-verified = rw (payload-parsed, subject-checked, bundle-stale, gate-closed true) refl

verify_keyless_seal-IsGated_example :
    All (λ f. f.trusted ≡ false) (closed_finding ∷ [])
    × ((r : Option ReExecutor) (l : Option ReportLoader)
        → verify_keyless_seal machine verify_dsse "bundle" "dev@example.org"
            "https://issuer.example.org"
            (some "essay.md")
            none
            r
            l
            (some (pos 30))
            now
          ≡ ok stale)
verify_keyless_seal-IsGated_example =
    verify_keyless_seal-IsGated machine verify_dsse "bundle" "dev@example.org"
      "https://issuer.example.org" (some "essay.md") none (some reexecute) (some fetch)
      (some (pos 30)) now {report = stale} stale-verified refl

-- The seal holds the check of a skill.
abbrev workshop : Platform
workshop = record machine {
  parse_json =
      λ text. if str_eq text "envelope" then ok envelope_json else ok (build_statement scanned);
}

skill-loaded : load_envelope workshop "seal" ≡ ok envelope
unfolding load_envelope loads_unique_json strip is_space unique_json envelope_from_jsonable as_dict
    text_of get_or as_list is_null
skill-loaded = refl

skill_statement-loaded : loads_unique_json workshop "statement" ≡ ok (build_statement scanned)
unfolding loads_unique_json build_statement unique_json checkseal.Model.Predicate.to_jsonable
    checkseal.Model.Subject.to_jsonable checkseal.Model.CheckEntry.to_jsonable
    checkseal.Model.Check.to_jsonable checkseal.Model.Verdict.to_jsonable
    checkseal.Model.EnforcedProof.to_jsonable checkseal.Model.Evidence.to_jsonable
    checkseal.Model.Runtime.to_jsonable checkseal.Model.Provenance.to_jsonable
skill_statement-loaded = refl

skill-parsed : predicate_from_envelope workshop envelope ≡ ok scanned
unfolding predicate_from_envelope
skill-parsed =
    rw (skill_statement-loaded) (parse_statement-build_statement scanned scanned-IsWellFormed)

abbrev skill_report : VerificationReport
skill_report =
    local_report (true, "live digest matches")
      (record {
        valid = true;
        reason = "Ed25519 signature valid over DSSE PAE";
        identity = some signer_identity;
      })
      (entry_finding scan_check "not-applicable" "n/a (not an enforced verdict)" true ∷ [])

skill-verified :
    verify_local_seal workshop "seal" key (some "skill") none none none ≡ ok skill_report
unfolding verify_local_seal verify_signature_local check_subject live_digest verify_entries
    verify_entry reexecution_step proof_step grade_c_step check_invariant_e1 profile_of
    is_agent_tooling_subject validate_agent_tooling_profile each starts_with validate_n1_profile
skill-verified = rw (skill-loaded, skill-parsed) refl

verify_local_seal-IsScanCheck_example :
    (scanned.subject.media_type ≢ none) × All IsScanCheck scanned.checks
unfolding is_agent_tooling_subject passes entry_finding
verify_local_seal-IsScanCheck_example =
    verify_local_seal-IsScanCheck workshop "seal" key (some "skill") none none none true
      {env = envelope} {p = scanned} {report = skill_report} skill-loaded skill-parsed refl
      skill-verified refl

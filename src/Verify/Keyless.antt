-- ===== src/Verify/Keyless.antt =====
-- verify.py `verify_keyless_seal`, with sign/keyless.py `verify_bundle_keyless`.
pub mod Genuine
pub mod Gated
pub mod Complete
use checkseal.Common.{String, Bool, true, false, ◌&&◌, List, [], ◌∷◌, Option, none, some, str_eq}
use checkseal.Common.Int.{ℤ}
use checkseal.Common.Outcome.{Outcome, ok, raise, vcr_error, ◌>>=◌, ◌>>◌, require}
use checkseal.JsonUtils.{loads_unique_json}
use checkseal.Model.Predicate.{Predicate}
use checkseal.Statement.{parse_statement}
use checkseal.Platform.{Platform, Bytes}
use checkseal.Sign.{SigningTier, Identity, tier_value}
use checkseal.Dsse.{payload_type_in_toto}
use checkseal.HbResolve.{ReportLoader}
use checkseal.Verify.Report.{EntryFinding, VerificationReport}
use checkseal.Verify.Entries.{ReExecutor, verify_entries}
use checkseal.Verify.Local.{check_subject}
use checkseal.Verify.Freshness.{Moment, freshness}

-- Sigstore's `verify_dsse` on a bundle under a policy of an identity and an issuer: the payload type
-- and the payload. It raises on any failure.
abbrev pub DsseVerifier : Type 0
DsseVerifier = String → String → String → Outcome (String × Bytes)

unfoldable pub verify_bundle_keyless :
    DsseVerifier → String → String → String → Outcome (Bytes × Identity)
verify_bundle_keyless verify_dsse bundle_json expected_identity expected_issuer = do
  verified ← verify_dsse bundle_json expected_identity expected_issuer
  require (str_eq verified.0 payload_type_in_toto) "unexpected DSSE payloadType from bundle"
  ok (
    verified.1,
    record {
      tier = SigningTier.t2;
      subject = expected_identity;
      issuer = some expected_issuer;
      attested_authority = true;
    },
  )

abbrev pub keyless_report :
    Bool × String → Bool × String → Identity → List EntryFinding → VerificationReport
keyless_report subject fresh identity entries = record {
  tier = tier_value SigningTier.t2;
  subject_digest_ok = subject.0;
  subject_reason = subject.1;
  signature_ok = true;
  signature_reason = "Sigstore keyless verified (cert chain + Rekor inclusion)";
  identity = some identity.subject;
  freshness_reason = fresh.1;
  freshness_ok = fresh.0;
  entries = entries;
}

module _ (os : Platform) where
  -- The predicate in a payload.
  unfoldable pub predicate_from_payload : Bytes → Outcome Predicate
  predicate_from_payload payload = do
    text ← os.decode_utf8 payload
    statement ← loads_unique_json os text
    parse_statement statement

  -- The rest of `verify_keyless_seal`, for a predicate that was read from a payload.
  pub verify_keyless_predicate :
      String
      → Identity
      → Predicate
      → Option String
      → Option Bytes
      → Option ReExecutor
      → Option ReportLoader
      → Option ℤ
      → Moment
      → Outcome VerificationReport
  verify_keyless_predicate bundle_json identity predicate subject_path subject_bytes reexecutor
        loader max_age_seconds now =
      do
        subject ← check_subject os predicate subject_path subject_bytes
        fresh ← freshness os bundle_json max_age_seconds now
        entries ← verify_entries os predicate reexecutor loader true (subject.0 && fresh.0)
        ok (keyless_report subject fresh identity entries)

  unfoldable pub verify_keyless_seal :
      DsseVerifier
      → String
      → String
      → String
      → Option String
      → Option Bytes
      → Option ReExecutor
      → Option ReportLoader
      → Option ℤ
      → Moment
      → Outcome VerificationReport
  unfolding verify_keyless_predicate
  verify_keyless_seal verify_dsse bundle_json expected_identity expected_issuer subject_path
        subject_bytes reexecutor loader max_age_seconds now =
      do
        verified ← verify_bundle_keyless verify_dsse bundle_json expected_identity expected_issuer
        predicate ← predicate_from_payload verified.0
        verify_keyless_predicate bundle_json verified.1 predicate subject_path subject_bytes
            reexecutor loader max_age_seconds now

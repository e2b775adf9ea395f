-- ===== src/Verify/Keyless/Genuine.antt =====
-- The verifier contract for keyless seals, from the bundle to the verdict.
use checkseal.Common.{
  String, Bool, true, false, ◌&&◌, ◌≡◌, subst, List, Option, some, arith, All, all_of, str_eq,
  eq_iff, sym,
}
use checkseal.Common.Int.{ℤ}
use checkseal.Common.Outcome.{ok, ◌>>=◌, >>=-eq-ok, require}
use checkseal.JsonUtils.{loads_unique_json}
use checkseal.Model.Enums.{is_ok}
use checkseal.Model.Predicate.{Predicate, IsWellFormed}
use checkseal.Statement.{parse_statement}
use checkseal.Statement.Laws.{parse_statement-IsCoupled}
use checkseal.Platform.{Platform, Bytes}
use checkseal.Sign.{Identity, SigningTier}
use checkseal.Dsse.{payload_type_in_toto}
use checkseal.HbResolve.{ReportLoader}
use checkseal.Verify.Report.{EntryFinding, VerificationReport, passes}
use checkseal.Verify.Entries.{ReExecutor, verify_entries}
use checkseal.Verify.Entries.Laws.{IsTrusted}
use checkseal.Verify.Entries.Gating.{verify_entries-AllReport}
use checkseal.Verify.Local.{live_digest, check_subject}
use checkseal.Verify.Local.Laws.{verify_entries-IsTrusted, check_subject-bound, results-passed}
use checkseal.Verify.Freshness.{Moment, freshness, IsFresh, freshness-IsFresh}
use checkseal.Verify.Keyless.{
  DsseVerifier, verify_bundle_keyless, keyless_report, predicate_from_payload,
  verify_keyless_predicate, verify_keyless_seal,
}

-- What stands behind a keyless report that passes.
module _ (os : Platform) (verify_dsse : DsseVerifier) (bundle_json identity issuer : String)
    (path : Option String) (bytes : Option Bytes) (reexecutor : Option ReExecutor)
    (loader : Option ReportLoader) (max_age_seconds : Option ℤ) (now : Moment) where
  pub record IsGenuineKeyless (authentic_only : Bool) : Type 0 where
    pub payload : Bytes
    pub verified : verify_dsse bundle_json identity issuer ≡ ok (payload_type_in_toto, payload)
    pub predicate : Predicate
    pub sealed : predicate_from_payload os payload ≡ ok predicate
    pub well_formed : IsWellFormed predicate
    pub subject_bound : live_digest os path bytes ≡ ok (some predicate.subject.digest)
    pub fresh : IsFresh os bundle_json max_age_seconds now
    pub trusted : All (IsTrusted os reexecutor loader) predicate.checks
    pub passed :
        authentic_only ≡ false → all_of (λ e. is_ok e.verdict.result) predicate.checks ≡ true

keyless_passes-parts :
    (authentic_only : Bool) (subject fresh : Bool × String) (identity : Identity)
    (entries : List EntryFinding)
    → passes authentic_only (keyless_report subject fresh identity entries) ≡ true
    → (subject.0 ≡ true)
      × (fresh.0 ≡ true)
      × (all_of (λ f. f.trusted) entries ≡ true)
      × (authentic_only ≡ false → all_of (λ f. f.result_ok) entries ≡ true)
unfolding passes
keyless_passes-parts authentic_only subject fresh identity entries h = ground arith

predicate_from_payload-IsWellFormed :
    (os : Platform) (payload : Bytes) {p : Predicate}
    → predicate_from_payload os payload ≡ ok p
    → IsWellFormed p
unfolding predicate_from_payload
predicate_from_payload-IsWellFormed os payload h =
    let (text, _, h₁) =
      >>=-eq-ok (os.decode_utf8 payload)
        (λ text. loads_unique_json os text >>= λ v. parse_statement v) h in
    let (v, _, h₂) = >>=-eq-ok (loads_unique_json os text) (λ v. parse_statement v) h₁ in
    (parse_statement-IsCoupled v h₂).1

verify_bundle_keyless-verified :
    (verify_dsse : DsseVerifier) (bundle_json identity issuer : String)
    {verified : Bytes × Identity}
    → verify_bundle_keyless verify_dsse bundle_json identity issuer ≡ ok verified
    → verify_dsse bundle_json identity issuer ≡ ok (payload_type_in_toto, verified.0)
unfolding verify_bundle_keyless
verify_bundle_keyless-verified verify_dsse b i s {verified} h =
    let (pair, e, h₁) =
      >>=-eq-ok (verify_dsse b i s)
        (λ (pair : String × Bytes).
          require (str_eq pair.0 payload_type_in_toto) "unexpected DSSE payloadType from bundle"
          >>= λ _. ok (
            pair.1,
            record {
              tier = SigningTier.t2;
              subject = i;
              issuer = some s;
              attested_authority = true;
            },
          ))
        h in
    ground (arith, e, h₁, eq_iff pair.0 payload_type_in_toto)

module _ (os : Platform) (verify_dsse : DsseVerifier) (bundle_json identity issuer : String)
    (path : Option String) (bytes : Option Bytes) (r : Option ReExecutor) (l : Option ReportLoader)
    (max_age_seconds : Option ℤ) (now : Moment) where
  -- The steps of a run that ends with a report.
  pub keyless-steps :
      (who : Identity) (p : Predicate) {report : VerificationReport}
      → verify_keyless_predicate os bundle_json who p path bytes r l max_age_seconds now ≡ ok report
      → (subject : Bool × String) × (fresh : Bool × String) × (entries : List EntryFinding)
        × (check_subject os p path bytes ≡ ok subject)
        × (freshness os bundle_json max_age_seconds now ≡ ok fresh)
        × (verify_entries os p r l true (subject.0 && fresh.0) ≡ ok entries)
        × (keyless_report subject fresh who entries ≡ report)
  unfolding verify_keyless_predicate
  keyless-steps who p h =
      let (subject, s, h₁) =
        >>=-eq-ok (check_subject os p path bytes)
          (λ (subject : Bool × String). freshness os bundle_json max_age_seconds now >>= λ fresh.
            verify_entries os p r l true (subject.0 && fresh.0) >>= λ entries.
            ok (keyless_report subject fresh who entries))
          h in
      let (fresh, g, h₂) =
        >>=-eq-ok (freshness os bundle_json max_age_seconds now)
          (λ (fresh : Bool × String).
            verify_entries os p r l true (subject.0 && fresh.0) >>= λ entries.
            ok (keyless_report subject fresh who entries))
          h₁ in
      let (entries, e, h₃) =
        >>=-eq-ok (verify_entries os p r l true (subject.0 && fresh.0))
          (λ entries. ok (keyless_report subject fresh who entries)) h₂ in
      (subject, fresh, entries, s, g, e, cc h₃)

  -- A keyless report that passes comes from a bundle that Sigstore verifies for the expected identity
  -- and issuer, over a well-formed predicate whose subject digest is that of the live subject, no
  -- older than a requested bound allows, with every entry trusted; and unless only authenticity was
  -- asked for, with no failing result.
  pub verify_keyless_seal-IsGenuineKeyless :
      (authentic_only : Bool) {report : VerificationReport}
      → verify_keyless_seal os verify_dsse bundle_json identity issuer path bytes r l
          max_age_seconds now
        ≡ ok report
      → passes authentic_only report ≡ true
      → IsGenuineKeyless os verify_dsse bundle_json identity issuer path bytes r l max_age_seconds
          now authentic_only
  unfolding verify_keyless_seal
  verify_keyless_seal-IsGenuineKeyless authentic_only {report} h pass =
      let (verified, v, h₁) =
        >>=-eq-ok (verify_bundle_keyless verify_dsse bundle_json identity issuer)
          (λ (verified : Bytes × Identity). predicate_from_payload os verified.0 >>= λ p.
            verify_keyless_predicate os bundle_json verified.1 p path bytes r l max_age_seconds now)
          h in
      let (p, sealed, h₂) =
        >>=-eq-ok (predicate_from_payload os verified.0)
          (λ p.
            verify_keyless_predicate os bundle_json verified.1 p path bytes r l max_age_seconds now)
          h₁ in
      let (subject, fresh, entries, s, g, e, same) = keyless-steps verified.1 p h₂ in
      let (bound, recent, trusted, passed) =
        keyless_passes-parts authentic_only subject fresh verified.1 entries
          (subst (λ x. passes authentic_only x ≡ true) (sym same) pass) in
      let well_formed = predicate_from_payload-IsWellFormed os verified.0 sealed in
      record {
        payload = verified.0;
        verified = verify_bundle_keyless-verified verify_dsse bundle_json identity issuer v;
        predicate = p;
        sealed = sealed;
        well_formed = well_formed;
        subject_bound = check_subject-bound os p path bytes subject s bound;
        fresh = freshness-IsFresh os bundle_json max_age_seconds now g recent;
        trusted =
            verify_entries-IsTrusted os r l true (subject.0 && fresh.0) p well_formed.some_check e
              trusted;
        passed = λ all.
            results-passed p.checks entries
              (verify_entries-AllReport os r l true (subject.0 && fresh.0) p e) (passed all);
      }

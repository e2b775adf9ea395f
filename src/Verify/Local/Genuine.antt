-- ===== src/Verify/Local/Genuine.antt =====
-- The verifier contract for local seals, from the file to the verdict.
use checkseal.Common.{
  String, Bool, true, false, ◌&&◌, ◌≡◌, sym, subst, List, Option, some, arith, All, all_of,
}
use checkseal.Common.Outcome.{ok}
use checkseal.Model.Enums.{is_ok}
use checkseal.Model.Predicate.{Predicate, IsWellFormed}
use checkseal.Platform.{Platform, Bytes}
use checkseal.Sign.{SignatureVerifier}
use checkseal.Dsse.{Envelope}
use checkseal.Dsse.Pae.{pae}
use checkseal.HbResolve.{ReportLoader}
use checkseal.Verify.Report.{EntryFinding, VerificationReport, passes}
use checkseal.Verify.Entries.{ReExecutor}
use checkseal.Verify.Entries.Laws.{IsTrusted}
use checkseal.Verify.Entries.Gating.{verify_entries-AllReport}
use checkseal.Verify.Local.{
  SignatureCheck, load_envelope, predicate_from_envelope, live_digest, attested, local_report,
  verify_local_seal,
}
use checkseal.Verify.Local.Steps.{load-steps, local-steps}
use checkseal.Verify.Local.Laws.{
  SomeVerifies, verify_signature_local-SomeVerifies, verify_entries-IsTrusted,
  predicate_from_envelope-IsWellFormed, check_subject-bound, results-passed,
}

-- What stands behind a report that passes.
module _ (os : Platform) (seal_path : String) (verifier : SignatureVerifier)
    (subject_path : Option String) (subject_bytes : Option Bytes) (reexecutor : Option ReExecutor)
    (loader : Option ReportLoader) where
  pub record IsGenuine (authentic_only : Bool) : Type 0 where
    pub env : Envelope
    pub loaded : load_envelope os seal_path ≡ ok env
    pub predicate : Predicate
    pub sealed : predicate_from_envelope os env ≡ ok predicate
    pub well_formed : IsWellFormed predicate
    pub subject_bound :
        live_digest os subject_path subject_bytes ≡ ok (some predicate.subject.digest)
    pub signed :
        SomeVerifies verifier (pae (os.encode_utf8 env.payload_type) env.payload) env.signatures
    pub trusted : All (IsTrusted os reexecutor loader) predicate.checks
    pub passed :
        authentic_only ≡ false → all_of (λ e. is_ok e.verdict.result) predicate.checks ≡ true

pub passes-parts :
    (authentic_only : Bool) (subject : Bool × String) (sig : SignatureCheck)
    (entries : List EntryFinding)
    → passes authentic_only (local_report subject sig entries) ≡ true
    → (subject.0 ≡ true)
      × (sig.valid ≡ true)
      × (all_of (λ f. f.trusted) entries ≡ true)
      × (authentic_only ≡ false → all_of (λ f. f.result_ok) entries ≡ true)
unfolding passes
passes-parts authentic_only subject sig entries h = ground arith

-- A report that passes comes from an envelope whose signature the verifier accepts, over a
-- well-formed predicate whose subject digest is that of the live subject, with every entry trusted;
-- and unless only authenticity was asked for, with no failing result.
pub verify_local_seal-IsGenuine :
    (os : Platform) (seal_path : String) (verifier : SignatureVerifier) (path : Option String)
    (bytes : Option Bytes) (r : Option ReExecutor) (l : Option ReportLoader) (authentic_only : Bool)
    {report : VerificationReport}
    → verify_local_seal os seal_path verifier path bytes r l ≡ ok report
    → passes authentic_only report ≡ true
    → IsGenuine os seal_path verifier path bytes r l authentic_only
unfolding verify_local_seal
verify_local_seal-IsGenuine os seal_path verifier path bytes r l authentic_only {report} h pass =
    let (env, p, loaded, sealed, h₁) = load-steps os verifier path bytes r l seal_path h in
    let (subject, sig, entries, s, g, e, same) = local-steps os verifier path bytes r l env p h₁ in
    let (bound, valid, trusted, passed) = passes-parts authentic_only subject sig entries (
      subst (λ x. passes authentic_only x ≡ true) {x = report}
        {y = local_report subject sig entries} (sym same) pass) in
    let well_formed = predicate_from_envelope-IsWellFormed os env sealed in
    record {
      env = env;
      loaded = loaded;
      predicate = p;
      sealed = sealed;
      well_formed = well_formed;
      subject_bound = check_subject-bound os p path bytes subject s bound;
      signed = verify_signature_local-SomeVerifies os env verifier g valid;
      trusted =
          verify_entries-IsTrusted os r l (attested sig.identity) (subject.0 && sig.valid) p
            well_formed.some_check e trusted;
      passed = λ all.
          results-passed p.checks entries
            (verify_entries-AllReport os r l (attested sig.identity) (subject.0 && sig.valid) p e)
            (passed all);
    }

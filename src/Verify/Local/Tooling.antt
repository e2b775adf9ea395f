-- ===== src/Verify/Local/Tooling.antt =====
-- The agent-tooling profile in a local verification.
use checkseal.Common.{
  String, Bool, ◌&&◌, true, false, ◌≡◌, ◌≢◌, subst, sym, Option, none, All, arith,
}
use checkseal.Common.Outcome.{ok}
use checkseal.Model.Predicate.{Predicate}
use checkseal.Platform.{Platform, Bytes}
use checkseal.Sign.{SignatureVerifier}
use checkseal.Dsse.{Envelope}
use checkseal.HbResolve.{ReportLoader}
use checkseal.AgentTooling.{is_agent_tooling_subject, validate_agent_tooling_profile}
use checkseal.AgentTooling.Laws.{IsScanCheck, validate_agent_tooling_profile_iff}
use checkseal.Verify.Report.{VerificationReport, passes}
use checkseal.Verify.Entries.{ReExecutor, profile_of}
use checkseal.Verify.Local.{
  load_envelope, predicate_from_envelope, attested, verify_predicate, verify_local_seal,
}
use checkseal.Verify.Local.Laws.{verify_entries-profile, predicate_from_envelope-IsWellFormed}
use checkseal.Verify.Local.Steps.{local-steps}
use checkseal.Verify.Local.Genuine.{passes-parts}

profile_of-tooling :
    (p : Predicate)
    → is_agent_tooling_subject p.subject.kind p.subject.media_type ≡ true
    → profile_of p ≡ ok tt
    → validate_agent_tooling_profile false p ≡ ok tt
unfolding profile_of
profile_of-tooling p kind h = ground arith

-- If the envelope in a file holds a predicate over an agent-tooling subject, and the local report
-- on it passes, in either mode, then the subject has a media type and every check is a scan check.
pub verify_local_seal-IsScanCheck :
    (os : Platform) (seal_path : String) (verifier : SignatureVerifier) (path : Option String)
    (bytes : Option Bytes) (r : Option ReExecutor) (l : Option ReportLoader) (authentic_only : Bool)
    {env : Envelope} {p : Predicate} {report : VerificationReport}
    → load_envelope os seal_path ≡ ok env
    → predicate_from_envelope os env ≡ ok p
    → is_agent_tooling_subject p.subject.kind p.subject.media_type ≡ true
    → verify_local_seal os seal_path verifier path bytes r l ≡ ok report
    → passes authentic_only report ≡ true
    → (p.subject.media_type ≢ none) × All IsScanCheck p.checks
unfolding verify_local_seal
verify_local_seal-IsScanCheck os seal_path verifier path bytes r l authentic_only {env} {p} {report}
      loaded sealed kind h pass =
    let h₁ : verify_predicate os env p verifier path bytes r l ≡ ok report =
      rw (loaded, sealed) at h in
    let (subject, sig, entries, _, _, e, same) = local-steps os verifier path bytes r l env p h₁ in
    let (_, _, trusted, _) =
      passes-parts authentic_only subject sig entries
        (subst (λ x. passes authentic_only x ≡ true) (sym same) pass) in
    let well_formed = predicate_from_envelope-IsWellFormed os env sealed in
    let keeps =
      verify_entries-profile os r l (attested sig.identity) (subject.0 && sig.valid) p
        well_formed.some_check e trusted in
    let (_, media_type, _, checks) =
      (validate_agent_tooling_profile_iff false p).0 (profile_of-tooling p kind keeps) in
    (media_type, checks)

-- ===== src/Verify/Local/Gated.antt =====
-- verify.py `verify_local_seal`: `allow_external=subject_ok and sig_ok`.
use checkseal.Common.{String, false, ◌&&◌, ◌≡◌, subst, sym, ap, ◌∙◌, Option, All}
use checkseal.Common.Outcome.{ok}
use checkseal.Platform.{Platform, Bytes}
use checkseal.Sign.{SignatureVerifier}
use checkseal.HbResolve.{ReportLoader}
use checkseal.Verify.Report.{VerificationReport}
use checkseal.Verify.Entries.{ReExecutor, verify_entries}
use checkseal.Verify.Entries.Gating.{verify_entries-not_allowed, verify_entries-untrusted}
use checkseal.Verify.Local.{attested, verify_local_seal}
use checkseal.Verify.Local.Steps.{load-steps, local-steps, local-run}

-- A local report that says that the live subject is not the sealed one or that no signature is
-- valid trusts no entry, and the same report comes out whatever re-executor and loader are given.
pub verify_local_seal-IsGated :
    (os : Platform) (seal_path : String) (verifier : SignatureVerifier) (path : Option String)
    (bytes : Option Bytes) (r : Option ReExecutor) (l : Option ReportLoader)
    {report : VerificationReport}
    → verify_local_seal os seal_path verifier path bytes r l ≡ ok report
    → (report.subject_digest_ok && report.signature_ok) ≡ false
    → All (λ f. f.trusted ≡ false) report.entries
      × ((r' : Option ReExecutor) (l' : Option ReportLoader)
          → verify_local_seal os seal_path verifier path bytes r' l' ≡ ok report)
verify_local_seal-IsGated os seal_path verifier path bytes r l {report} h fails =
    let (env, p, loaded, sealed, h₁) = load-steps os verifier path bytes r l seal_path h in
    let (subject, sig, entries, s, g, e, same) = local-steps os verifier path bytes r l env p h₁ in
    let closed : (subject.0 && sig.valid) ≡ false =
      subst (λ (x : VerificationReport). (x.subject_digest_ok && x.signature_ok) ≡ false) (sym same)
        fails in
    let none_asked : verify_entries os p r l (attested sig.identity) false ≡ ok entries =
      subst (λ b. verify_entries os p r l (attested sig.identity) b ≡ ok entries) closed e in
    (
      subst (λ (x : VerificationReport). All (λ f. f.trusted ≡ false) x.entries) same
          (verify_entries-untrusted os r l (attested sig.identity) p none_asked),
      λ r' l'.
          let again : verify_entries os p r' l' (attested sig.identity) (subject.0 && sig.valid)
              ≡ ok entries =
            subst (λ b. verify_entries os p r' l' (attested sig.identity) b ≡ ok entries)
              (sym closed)
              (verify_entries-not_allowed os (attested sig.identity) p r' r l' l ∙ none_asked) in
          local-run os verifier path bytes r' l' seal_path env p subject sig entries loaded sealed s
            g again
          ∙ ap (λ x. ok x) same,
    )

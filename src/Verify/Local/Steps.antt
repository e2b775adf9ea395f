-- ===== src/Verify/Local/Steps.antt =====
-- The steps of a local verification that ends with a report.
use checkseal.Common.{String, Bool, ◌&&◌, ◌≡◌, refl, List, Option}
use checkseal.Common.Outcome.{ok, ◌>>=◌, >>=-eq-ok}
use checkseal.Model.Predicate.{Predicate}
use checkseal.Platform.{Platform, Bytes}
use checkseal.Sign.{SignatureVerifier}
use checkseal.Dsse.{Envelope}
use checkseal.HbResolve.{ReportLoader}
use checkseal.Verify.Report.{EntryFinding, VerificationReport}
use checkseal.Verify.Entries.{ReExecutor, verify_entries}
use checkseal.Verify.Local.{
  SignatureCheck, load_envelope, predicate_from_envelope, check_subject, verify_signature_local,
  attested, local_report, verify_predicate, verify_local_seal,
}

module _ (os : Platform) (verifier : SignatureVerifier) (path : Option String)
    (bytes : Option Bytes) (r : Option ReExecutor) (l : Option ReportLoader) where
  -- What is read, and what is left to do with it.
  pub load-steps :
      (seal_path : String) {report : VerificationReport}
      → verify_local_seal os seal_path verifier path bytes r l ≡ ok report
      → (env : Envelope) × (p : Predicate) × (load_envelope os seal_path ≡ ok env)
        × (predicate_from_envelope os env ≡ ok p)
        × (verify_predicate os env p verifier path bytes r l ≡ ok report)
  unfolding verify_local_seal
  load-steps seal_path {report} h =
      let (env, loaded, h₁) =
        >>=-eq-ok (load_envelope os seal_path)
          (λ env. predicate_from_envelope os env >>= λ p.
            verify_predicate os env p verifier path bytes r l)
          h in
      let (p, sealed, h₂) =
        >>=-eq-ok (predicate_from_envelope os env)
          (λ p. verify_predicate os env p verifier path bytes r l) h₁ in
      (env, p, loaded, sealed, h₂)

  pub local-steps :
      (env : Envelope) (p : Predicate) {report : VerificationReport}
      → verify_predicate os env p verifier path bytes r l ≡ ok report
      → (subject : Bool × String) × (sig : SignatureCheck) × (entries : List EntryFinding)
        × (check_subject os p path bytes ≡ ok subject)
        × (verify_signature_local os env verifier ≡ ok sig)
        × (verify_entries os p r l (attested sig.identity) (subject.0 && sig.valid) ≡ ok entries)
        × (local_report subject sig entries ≡ report)
  unfolding verify_predicate
  local-steps env p {report} h =
      let (subject, s, h₁) =
        >>=-eq-ok (check_subject os p path bytes)
          (λ (subject : Bool × String). verify_signature_local os env verifier >>= λ sig.
            verify_entries os p r l (attested sig.identity) (subject.0 && sig.valid) >>= λ entries.
            ok (local_report subject sig entries))
          h in
      let (sig, g, h₂) =
        >>=-eq-ok (verify_signature_local os env verifier)
          (λ (sig : SignatureCheck).
            verify_entries os p r l (attested sig.identity) (subject.0 && sig.valid) >>= λ entries.
            ok (local_report subject sig entries))
          h₁ in
      let (entries, e, h₃) =
        >>=-eq-ok (verify_entries os p r l (attested sig.identity) (subject.0 && sig.valid))
          (λ entries. ok (local_report subject sig entries)) h₂ in
      (subject, sig, entries, s, g, e, cc h₃)

  -- The steps make up the run.
  pub local-run :
      (seal_path : String) (env : Envelope) (p : Predicate) (subject : Bool × String)
      (sig : SignatureCheck) (entries : List EntryFinding)
      → load_envelope os seal_path ≡ ok env
      → predicate_from_envelope os env ≡ ok p
      → check_subject os p path bytes ≡ ok subject
      → verify_signature_local os env verifier ≡ ok sig
      → verify_entries os p r l (attested sig.identity) (subject.0 && sig.valid) ≡ ok entries
      → verify_local_seal os seal_path verifier path bytes r l
        ≡ ok (local_report subject sig entries)
  unfolding verify_local_seal verify_predicate
  local-run seal_path env p subject sig entries loaded sealed s g e =
      rw (loaded, sealed, s, g, e) refl

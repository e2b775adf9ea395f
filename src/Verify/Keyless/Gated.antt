-- ===== src/Verify/Keyless/Gated.antt =====
-- verify.py `verify_keyless_seal`: `allow_external=subject_ok and freshness_ok`.
use checkseal.Common.{
  String, Bool, true, false, ◌&&◌, ◌≡◌, refl, subst, sym, ap, ◌∙◌, List, Option, All,
}
use checkseal.Common.Int.{ℤ}
use checkseal.Common.Outcome.{ok, ◌>>=◌, >>=-eq-ok}
use checkseal.Platform.{Platform, Bytes}
use checkseal.Model.Predicate.{Predicate}
use checkseal.Verify.Local.{check_subject}
use checkseal.Sign.{Identity}
use checkseal.HbResolve.{ReportLoader}
use checkseal.Verify.Report.{EntryFinding, VerificationReport}
use checkseal.Verify.Entries.{ReExecutor, verify_entries}
use checkseal.Verify.Entries.Gating.{verify_entries-not_allowed, verify_entries-untrusted}
use checkseal.Verify.Freshness.{Moment, freshness}
use checkseal.Verify.Keyless.{
  DsseVerifier, verify_bundle_keyless, keyless_report, predicate_from_payload,
  verify_keyless_predicate, verify_keyless_seal,
}
use checkseal.Verify.Keyless.Genuine.{keyless-steps}

-- The steps make up the run.
keyless-run :
    (os : Platform) (verify_dsse : DsseVerifier) (bundle_json identity issuer : String)
    (path : Option String) (bytes : Option Bytes) (max_age_seconds : Option ℤ) (now : Moment)
    (r : Option ReExecutor) (l : Option ReportLoader) (verified : Bytes × Identity) (p : Predicate)
    (subject fresh : Bool × String) (entries : List EntryFinding)
    → verify_bundle_keyless verify_dsse bundle_json identity issuer ≡ ok verified
    → predicate_from_payload os verified.0 ≡ ok p
    → check_subject os p path bytes ≡ ok subject
    → freshness os bundle_json max_age_seconds now ≡ ok fresh
    → verify_entries os p r l true (subject.0 && fresh.0) ≡ ok entries
    → verify_keyless_seal os verify_dsse bundle_json identity issuer path bytes r l max_age_seconds
        now
      ≡ ok (keyless_report subject fresh verified.1 entries)
unfolding verify_keyless_seal verify_keyless_predicate
keyless-run os verify_dsse b i s path bytes m now r l verified p subject fresh entries v sealed c g
      e =
    rw (v, sealed, c, g, e) refl

-- A keyless report that says that the live subject is not the sealed one or that the seal is not
-- fresh trusts no entry, and the same report comes out whatever re-executor and loader are given.
pub verify_keyless_seal-IsGated :
    (os : Platform) (verify_dsse : DsseVerifier) (bundle_json identity issuer : String)
    (path : Option String) (bytes : Option Bytes) (r : Option ReExecutor) (l : Option ReportLoader)
    (max_age_seconds : Option ℤ) (now : Moment) {report : VerificationReport}
    → verify_keyless_seal os verify_dsse bundle_json identity issuer path bytes r l max_age_seconds
        now
      ≡ ok report
    → (report.subject_digest_ok && report.freshness_ok) ≡ false
    → All (λ f. f.trusted ≡ false) report.entries
      × ((r' : Option ReExecutor) (l' : Option ReportLoader)
          → verify_keyless_seal os verify_dsse bundle_json identity issuer path bytes r' l'
              max_age_seconds now
            ≡ ok report)
unfolding verify_keyless_seal
verify_keyless_seal-IsGated os verify_dsse bundle_json identity issuer path bytes r l
      max_age_seconds now {report} h fails =
    let (verified, v, h₁) =
      >>=-eq-ok (verify_bundle_keyless verify_dsse bundle_json identity issuer)
        (λ (verified : Bytes × Identity). predicate_from_payload os verified.0 >>= λ p.
          verify_keyless_predicate os bundle_json verified.1 p path bytes r l max_age_seconds now)
        h in
    let (p, sealed, h₂) =
      >>=-eq-ok (predicate_from_payload os verified.0)
        (λ p.
          verify_keyless_predicate os bundle_json verified.1 p path bytes r l max_age_seconds now)
        h₁ in
    let (subject, fresh, entries, s, g, e, same) =
      keyless-steps os verify_dsse bundle_json identity issuer path bytes r l max_age_seconds now
        verified.1 p h₂ in
    let closed : (subject.0 && fresh.0) ≡ false =
      subst (λ (x : VerificationReport). (x.subject_digest_ok && x.freshness_ok) ≡ false) (sym same)
        fails in
    let none_asked : verify_entries os p r l true false ≡ ok entries =
      subst (λ b. verify_entries os p r l true b ≡ ok entries) closed e in
    (
      subst (λ (x : VerificationReport). All (λ f. f.trusted ≡ false) x.entries) same
          (verify_entries-untrusted os r l true p none_asked),
      λ r' l'.
          let again : verify_entries os p r' l' true (subject.0 && fresh.0) ≡ ok entries =
            subst (λ b. verify_entries os p r' l' true b ≡ ok entries) (sym closed)
              (verify_entries-not_allowed os true p r' r l' l ∙ none_asked) in
          keyless-run os verify_dsse bundle_json identity issuer path bytes max_age_seconds now r'
            l' verified p subject fresh entries v sealed s g again
          ∙ ap (λ x. ok x) same,
    )

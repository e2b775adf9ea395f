-- ===== src/Verify/Entries/Laws.antt =====
-- What a trusted finding rests on, and what the verifier does not run.
use checkseal.Common.{
  ◌&&◌, String, Bool, true, false, ◌≡◌, ◌≢◌, refl, Option, none, some, arith, inl, inr,
}
use checkseal.Common.Outcome.{ok, >>=-eq-ok, Outcome-cases}
use checkseal.Model.Enums.{Enforced, Grade, Authority}
use checkseal.Model.CheckEntry.{CheckEntry}
use checkseal.Model.EnforcedProof.{EnforcedProof}
use checkseal.Platform.{Platform}
use checkseal.Trust.{check_invariant_e1}
use checkseal.HbResolve.{ReportLoader, resolve_enforced_proof}
use checkseal.HbResolve.Early.{ProofResolution}
use checkseal.HbResolve.Resolved.{IsResolved, resolve_enforced_proof-IsResolved}
use checkseal.Verify.Report.{EntryFinding}
use checkseal.Verify.Entries.{
  ReExecutor, entry_finding, fail_finding, reexecution_step, proof_step, grade_c_step, verify_entry,
  verify_sound_entry,
}

-- The re-executor was supplied, and confirmed the entry.
abbrev pub IsConfirmed : Option ReExecutor → CheckEntry → Type 0
IsConfirmed none entry = ⊥
IsConfirmed (some run) entry = run entry ≡ ok true

-- A loader was supplied, and the proof is the right report.
abbrev pub IsProven : Platform → Option ReportLoader → CheckEntry → EnforcedProof → Type 0
IsProven os none entry proof = ⊥
IsProven os (some loader) entry proof = IsResolved os loader entry proof

module _ (os : Platform) (reexecutor : Option ReExecutor) (loader : Option ReportLoader) where
  -- What stands behind an entry that is reported as trusted.
  pub record IsTrusted (entry : CheckEntry) : Type 0 where
    pub e1 : check_invariant_e1 entry ≡ ok tt
    pub confirmed :
        entry.verdict.enforced ≡ Enforced.enforced
        → entry.evidence.grade ≡ Grade.grade_a
        → IsConfirmed reexecutor entry
    pub has_proof : entry.verdict.enforced ≡ Enforced.enforced → entry.verdict.enforced_proof ≢ none
    pub proven :
        (proof : EnforcedProof)
        → entry.verdict.enforced_proof ≡ some proof
        → IsProven os loader entry proof
    pub authority :
        entry.evidence.grade ≡ Grade.grade_c → entry.provenance.authority ≡ Authority.operator

  reexecution_step-IsConfirmed :
      (entry : CheckEntry)
      → (reexecution_step true reexecutor entry).1 ≡ true
      → entry.verdict.enforced ≡ Enforced.enforced
      → entry.evidence.grade ≡ Grade.grade_a
      → IsConfirmed reexecutor entry
  unfolding reexecution_step
  reexecution_step-IsConfirmed entry h e g = ground arith

  proof_step-has_proof :
      (entry : CheckEntry) (step : String × Bool)
      → proof_step os true loader entry ≡ ok step
      → step.1 ≡ true
      → entry.verdict.enforced ≡ Enforced.enforced
      → entry.verdict.enforced_proof ≢ none
  unfolding proof_step
  proof_step-has_proof entry step h t e n = ground arith

reexecution_step-not_allowed :
    (reexecutor : Option ReExecutor) (entry : CheckEntry)
    → ¬ ((reexecution_step false reexecutor entry).1 ≡ true)
unfolding reexecution_step
reexecution_step-not_allowed reexecutor entry h = cc

grade_c_step-trusted :
    (attested : Bool) (entry : CheckEntry) (step : String × Bool)
    → (grade_c_step attested entry step).1 ≡ true
    → (step.1 ≡ true)
      × (entry.evidence.grade ≡ Grade.grade_c → entry.provenance.authority ≡ Authority.operator)
unfolding grade_c_step
grade_c_step-trusted attested entry step h = ground arith

proof_step-IsProven :
    (os : Platform) (loader : Option ReportLoader) (entry : CheckEntry) (step : String × Bool)
    → proof_step os true loader entry ≡ ok step
    → step.1 ≡ true
    → (proof : EnforcedProof) → entry.verdict.enforced_proof ≡ some proof
    → IsProven os loader entry proof
unfolding proof_step
proof_step-IsProven os none entry step h t proof e = ground arith
proof_step-IsProven os (some load) entry step h t proof e =
    let (res, r, s) =
      >>=-eq-ok {B = String × Bool} (resolve_enforced_proof os entry proof (some load))
        (λ (res : ProofResolution). ok (res.reason, res.resolved)) {result = step} (ground arith) in
    resolve_enforced_proof-IsResolved os load entry proof r (ground arith)

-- An entry that satisfies E1: each step left it trusted.
verify_sound_entry-steps :
    (os : Platform) (reexecutor : Option ReExecutor) (loader : Option ReportLoader)
    (attested allow : Bool) (entry : CheckEntry) {f : EntryFinding}
    → verify_sound_entry os reexecutor loader attested allow entry ≡ ok f
    → f.trusted ≡ true
    → (step4 : String × Bool) × (proof_step os allow loader entry ≡ ok step4)
      × ((reexecution_step allow reexecutor entry).1 ≡ true)
      × ((grade_c_step attested entry step4).1 ≡ true)
unfolding verify_sound_entry entry_finding
verify_sound_entry-steps os reexecutor loader attested allow entry {f} h t =
    let (step4, p, q) =
      >>=-eq-ok (proof_step os allow loader entry)
        (λ (step4 : String × Bool).
          let (reexec, confirmed) = reexecution_step allow reexecutor entry in
          let (proof, proven) = grade_c_step attested entry step4 in
          ok (entry_finding entry reexec proof (confirmed && proven)))
        h in
    (step4, p, ground arith, ground arith)

module _ (os : Platform) (reexecutor : Option ReExecutor) (loader : Option ReportLoader)
    (attested : Bool) (entry : CheckEntry) {f : EntryFinding} where
  verify_sound_entry-IsTrusted :
      (allow : Bool)
      → check_invariant_e1 entry ≡ ok tt
      → verify_sound_entry os reexecutor loader attested allow entry ≡ ok f
      → f.trusted ≡ true
      → (allow ≡ true) × IsTrusted os reexecutor loader entry
  verify_sound_entry-IsTrusted false e1 h t =
      let (step4, p, r, g) =
        verify_sound_entry-steps os reexecutor loader attested false entry h t in
      absurd (reexecution_step-not_allowed reexecutor entry r)
  verify_sound_entry-IsTrusted true e1 h t =
      let (step4, p, r, g) =
        verify_sound_entry-steps os reexecutor loader attested true entry h t in
      let (s, c) = grade_c_step-trusted attested entry step4 g in
      (
        refl,
        record {
          e1 = e1;
          confirmed = reexecution_step-IsConfirmed os reexecutor loader entry r;
          has_proof = proof_step-has_proof os reexecutor loader entry step4 p s;
          proven = proof_step-IsProven os loader entry step4 p s;
          authority = c;
        },
      )

  -- If the verifier reports an entry as trusted, then external work was allowed, E1 holds, an
  -- enforced verdict carries a proof and with grade A was confirmed by the re-executor, every proof
  -- resolved, and grade C evidence has operator authority.
  pub verify_entry-IsTrusted :
      (allow : Bool)
      → verify_entry os reexecutor loader attested allow entry ≡ ok f
      → f.trusted ≡ true
      → (allow ≡ true) × IsTrusted os reexecutor loader entry
  unfolding verify_entry fail_finding
  verify_entry-IsTrusted allow h t = elim (Outcome-cases (check_invariant_e1 entry)) [
    | inl (_, e1) ↦ verify_sound_entry-IsTrusted allow e1 (ground arith) t
    | inr (x, e) ↦ ground arith
  ]

-- ===== src/Verify/Entries/Complete.antt =====
-- When the verifier reports an entry as trusted.
use checkseal.Common.{
  String, Bool, true, ◌≡◌, ◌≢◌, refl, Option, none, arith, List, [], ◌∷◌, All, all_of,
}
use checkseal.Common.Outcome.{ok, for_each}
use checkseal.Model.Enums.{Enforced, Grade, Authority, is_ok}
use checkseal.Model.CheckEntry.{CheckEntry}
use checkseal.Model.Predicate.{Predicate}
use checkseal.Platform.{Platform}
use checkseal.Trust.{check_invariant_e1}
use checkseal.HbResolve.{ReportLoader}
use checkseal.Verify.Report.{EntryFinding}
use checkseal.Verify.Entries.{
  ReExecutor, entry_finding, reexecution_step, proof_step, grade_c_step, verify_entry,
  verify_sound_entry, verify_entries, profile_of,
}

module _ (os : Platform) (reexecutor : Option ReExecutor) (loader : Option ReportLoader) where
  -- What an entry needs to be trusted, where external work is allowed.
  pub record IsVouched (e : CheckEntry) : Type 0 where
    pub e1 : check_invariant_e1 e ≡ ok tt
    pub reexecuted : (reexecution_step true reexecutor e).1 ≡ true
    pub reason : String
    pub proof : proof_step os true loader e ≡ ok (reason, true)
    pub authority : e.evidence.grade ≡ Grade.grade_c → e.provenance.authority ≡ Authority.operator

  grade_c_step-vouched :
      (attested : Bool) (e : CheckEntry) (reason : String)
      → (e.evidence.grade ≡ Grade.grade_c → e.provenance.authority ≡ Authority.operator)
      → (grade_c_step attested e (reason, true)).1 ≡ true
  unfolding grade_c_step
  grade_c_step-vouched attested e reason h = ground arith

  verify_entry-vouched :
      (attested : Bool) (e : CheckEntry)
      → IsVouched e
      → (f : EntryFinding) × (verify_entry os reexecutor loader attested true e ≡ ok f)
        × (f.trusted ≡ true)
        × (f.result_ok ≡ is_ok e.verdict.result)
  unfolding verify_entry verify_sound_entry entry_finding
  verify_entry-vouched attested e h =
      let (proof, proven) = grade_c_step attested e (h.reason, true) in
      (
        entry_finding e (reexecution_step true reexecutor e).0
            (grade_c_step attested e (h.reason, true)).0 true,
        rw (h.e1, h.proof, h.reexecuted, grade_c_step-vouched attested e h.reason h.authority) refl,
        refl,
        refl,
      )

  loop-vouched :
      (attested : Bool) (es : List CheckEntry)
      → All IsVouched es
      → (fs : List EntryFinding) × (for_each (verify_entry os reexecutor loader attested true) es
          ≡ ok fs)
        × (all_of (λ f. f.trusted) fs ≡ true)
        × (all_of (λ f. f.result_ok) fs ≡ all_of (λ e. is_ok e.verdict.result) es)
  loop-vouched attested [] h = ([], refl, refl, refl)
  loop-vouched attested (e ∷ es) h =
      let (f, a, b, c) = verify_entry-vouched attested e h.0 in
      let (fs, p, q, r) = loop-vouched attested es h.1 in
      (f ∷ fs, rw (a, p) refl, rw (b, q) refl, rw (c, r) refl)

  -- The findings of a predicate whose entries are all vouched for.
  pub verify_entries-vouched :
      (attested : Bool) (p : Predicate)
      → profile_of p ≡ ok tt
      → All IsVouched p.checks
      → (fs : List EntryFinding) × (verify_entries os p reexecutor loader attested true ≡ ok fs)
        × (all_of (λ f. f.trusted) fs ≡ true)
        × (all_of (λ f. f.result_ok) fs ≡ all_of (λ e. is_ok e.verdict.result) p.checks)
  unfolding verify_entries
  verify_entries-vouched attested p profile h =
      let (fs, a, b, c) = loop-vouched attested p.checks h in (fs, rw (profile) a, b, c)

  -- An entry that claims no enforcement and points to no proof needs neither a re-executor nor a
  -- loader.
  pub unenforced-IsVouched :
      (e : CheckEntry)
      → e.verdict.enforced ≢ Enforced.enforced
      → e.verdict.enforced_proof ≡ none
      → (e.evidence.grade ≡ Grade.grade_c → e.provenance.authority ≡ Authority.operator)
      → IsVouched e
  unfolding check_invariant_e1 reexecution_step proof_step
  unenforced-IsVouched e n p g = record {
    e1 = ground arith;
    reexecuted = ground arith;
    reason = "n/a (not an enforced verdict)";
    proof = ground arith;
    authority = g;
  }

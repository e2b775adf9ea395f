-- ===== src/Verify/Entries.antt =====
-- verify.py `_verify_entries` and the two functions that build findings.
pub mod Laws
pub mod Gating
pub mod Complete
use checkseal.Common.{
  String, ◌<>◌, Bool, true, false, ◌&&◌, not, List, [], ◌∷◌, map, Option, none, some, is_some,
  if◌then◌else◌,
}
use checkseal.Common.Outcome.{Outcome, ok, raise, vcr_error, ◌>>=◌, for_each}
use checkseal.Model.Enums.{Enforced, value, result_enum, enforced_enum, is_ok}
use checkseal.Model.CheckEntry.{CheckEntry}
use checkseal.Model.EnforcedProof.{EnforcedProof}
use checkseal.Model.Predicate.{Predicate}
use checkseal.Platform.{Platform}
use checkseal.Trust.{
  is_enforced, is_grade_a, is_grade_b, is_grade_c, trust_floor, render_trust_floor,
  check_invariant_e1,
}
use checkseal.Profile.{is_operator}
use checkseal.AgentTooling.{is_agent_tooling_subject, validate_agent_tooling_profile}
use checkseal.HbResolve.{ReportLoader, resolve_enforced_proof}
use checkseal.Verify.Report.{EntryFinding}

-- Runs the gate of a check; it may raise.
abbrev pub ReExecutor : Type 0
ReExecutor = CheckEntry → Outcome Bool

unfoldable pub entry_finding : CheckEntry → String → String → Bool → EntryFinding
entry_finding entry reexecution proof trusted = record {
  check_id = entry.check.id;
  result = value entry.verdict.result;
  enforced = value entry.verdict.enforced;
  trust_floor = trust_floor entry;
  trust_floor_label = render_trust_floor entry;
  reexecution = reexecution;
  enforced_proof = proof;
  trusted = trusted;
  result_ok = is_ok entry.verdict.result;
}

unfoldable pub fail_finding : CheckEntry → String → EntryFinding
unfolding entry_finding
fail_finding entry reason = entry_finding entry "not-run" reason false

abbrev not_run : String
not_run = "not-run (authentication, subject binding, or freshness failed)"

-- `"confirmed" if reexecutor(entry) else "FAILED"`, and the `except Exception` around it
unfoldable pub confirmation : Outcome Bool → String × Bool
confirmation (ok true) = ("confirmed", true)
confirmation (ok false) = ("FAILED", false)
confirmation (raise _) = ("FAILED (exception)", false)

abbrev run_or_skip : Option ReExecutor → CheckEntry → String × Bool
run_or_skip none entry = ("not-run (no re-executor supplied; run the CLI with --reexec)", false)
run_or_skip (some run) entry = confirmation (run entry)

-- Step 3: the re-execution text, and whether the entry is still trusted.
unfoldable pub reexecution_step : Bool → Option ReExecutor → CheckEntry → String × Bool
unfolding confirmation
reexecution_step allow_external reexecutor entry =
    if not allow_external
    then (not_run, false)
    else if is_enforced entry.verdict.enforced && is_grade_a entry.evidence.grade
    then run_or_skip reexecutor entry
    else if is_enforced entry.verdict.enforced && is_grade_b entry.evidence.grade
    then ("producer-trusted (Grade-B immutable artifact)", true)
    else ("not-applicable", true)

abbrev unproven : CheckEntry → String × Bool
unproven entry =
    if is_enforced entry.verdict.enforced
    then ("gate unproven: enforced verdict with no enforced_proof", false)
    else ("n/a (not an enforced verdict)", true)

abbrev require_operator : CheckEntry → String × Bool → String × Bool
require_operator entry (proof, trusted) =
    if is_operator entry.provenance.authority
    then (proof, trusted)
    else (proof <> " | grade-C evidence requires operator authority (profile rule)", false)

abbrev note_attestation : Bool → String × Bool → String × Bool
note_attestation true (proof, trusted) = (proof, trusted)
note_attestation false (proof, trusted) =
    (proof <> " | grade-C on a non-identity-attested seal", trusted)

-- Grade C needs operator authority.
unfoldable pub grade_c_step : Bool → CheckEntry → String × Bool → String × Bool
grade_c_step attested_authority entry step4 =
    if is_grade_c entry.evidence.grade
    then note_attestation attested_authority (require_operator entry step4)
    else step4

abbrev after_e1 : Outcome (Unit {0}) → CheckEntry → Outcome EntryFinding → Outcome EntryFinding
after_e1 (ok _) entry sound = sound
after_e1 (raise _) entry sound = ok (fail_finding entry "E1 violated")

abbrev after_profile :
    Outcome (Unit {0}) → Predicate → Outcome (List EntryFinding) → Outcome (List EntryFinding)
after_profile (ok _) predicate loop = loop
after_profile (raise _) predicate loop =
    ok (map (λ e. fail_finding e "agent-tooling profile violated") predicate.checks)

-- The profile is checked for an agent-tooling subject; it raises nothing but `VCRError`.
unfoldable pub profile_of : Predicate → Outcome (Unit {0})
profile_of predicate =
    if is_agent_tooling_subject predicate.subject.kind predicate.subject.media_type
    then validate_agent_tooling_profile false predicate
    else ok tt

module _ (os : Platform) where
  resolve_or_skip : Option ReportLoader → CheckEntry → EnforcedProof → Outcome (String × Bool)
  resolve_or_skip none entry proof =
      ok ("not-run (proof resolution requires an explicit --proof-root or resolver)", false)
  resolve_or_skip (some loader) entry proof = do
    res ← resolve_enforced_proof os entry proof (some loader)
    ok (res.reason, res.resolved)

  -- Step 4: the text on the proof, and whether the entry is still trusted.
  unfoldable pub proof_step : Bool → Option ReportLoader → CheckEntry → Outcome (String × Bool)
  unfolding resolve_or_skip
  proof_step allow_external loader entry = elim entry.verdict.enforced_proof [
    | none ↦ ok (unproven entry)
    | some proof ↦
        if allow_external then resolve_or_skip loader entry proof else ok (not_run, false)
  ]

  -- An entry that satisfies E1.
  unfoldable pub verify_sound_entry :
      Option ReExecutor → Option ReportLoader → Bool → Bool → CheckEntry → Outcome EntryFinding
  verify_sound_entry reexecutor loader attested_authority allow_external entry = do
    step4 ← proof_step allow_external loader entry
    let (reexec, confirmed) = reexecution_step allow_external reexecutor entry
    let (proof, proven) = grade_c_step attested_authority entry step4
    ok (entry_finding entry reexec proof (confirmed && proven))

  -- The body of the loop. `check_invariant_e1` raises nothing but `VCRError`.
  unfoldable pub verify_entry :
      Option ReExecutor → Option ReportLoader → Bool → Bool → CheckEntry → Outcome EntryFinding
  unfolding verify_sound_entry
  verify_entry reexecutor loader attested_authority allow_external entry =
      after_e1 (check_invariant_e1 entry) entry
        (verify_sound_entry reexecutor loader attested_authority allow_external entry)

  unfoldable pub verify_entries :
      Predicate
      → Option ReExecutor
      → Option ReportLoader
      → Bool
      → Bool
      → Outcome (List EntryFinding)
  unfolding verify_entry profile_of
  verify_entries predicate reexecutor loader attested_authority allow_external =
      after_profile (profile_of predicate) predicate (
        for_each (verify_entry reexecutor loader attested_authority allow_external)
          predicate.checks)

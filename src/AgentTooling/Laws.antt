-- ===== src/AgentTooling/Laws.antt =====
-- What the agent-tooling profile guarantees.
use checkseal.Common.Text.{starts_with}
use checkseal.Common.{
  String, Bool, true, false, ◌≡◌, ◌≢◌, ◌⊎◌, ◌↔◌, none, arith, All, All-mono, is_empty,
}
use checkseal.Common.Outcome.{ok}
use checkseal.Model.Enums.{Enforced, Grade, CheckKind}
use checkseal.Model.CheckEntry.{CheckEntry}
use checkseal.Model.Predicate.{Predicate}
use checkseal.Profile.Laws.{Conforms, each_iff, validate_n1_profile_iff}
use checkseal.Trust.{check_invariant_e1}
use checkseal.AgentTooling.{
  validate_scan_entry, validate_agent_tooling_profile, is_subject_kind, is_scan_result,
}

-- The rules of the profile for one check.
pub record IsScanCheck (e : CheckEntry) : Type 0 where
  pub namespace : starts_with e.check.id "scan/" ≡ true
  pub kind : e.check.kind ≡ CheckKind.review
  pub config_ref : e.check.config_ref ≢ none
  pub enforced : e.verdict.enforced ≢ Enforced.enforced
  pub result : is_scan_result e.verdict.result ≡ true
  pub grade : (e.evidence.grade ≡ Grade.grade_a) ⊎ (e.evidence.grade ≡ Grade.grade_b)

scan-not-runtime : (s : String) → starts_with s "scan/" ≡ true → starts_with s "runtime/" ≡ false
unfolding starts_with
scan-not-runtime String.[] h = cc
scan-not-runtime (String.◌∷◌ c s) h = ground arith

validate_scan_entry_iff : (e : CheckEntry) → (validate_scan_entry e ≡ ok tt) ↔ IsScanCheck e
unfolding validate_scan_entry
validate_scan_entry_iff e = grind (arith, scan-not-runtime e.check.id)

-- A scan check conforms to the N1 profile, in a public seal too.
scan-Conforms : (is_public : Bool) (e : CheckEntry) → IsScanCheck e → Conforms is_public e
unfolding check_invariant_e1
scan-Conforms is_public e h = grind arith

-- The profile accepts a predicate exactly if its subject has one of the three kinds and a media
-- type, it has a check, and every check is a scan check: in the `scan/` namespace, of kind review,
-- with a `config_ref`, not enforced, with a result of pass, fail or error, and evidence of grade A
-- or B. The result does not depend on whether the seal is public.
pub validate_agent_tooling_profile_iff :
    (is_public : Bool) (p : Predicate)
    → (validate_agent_tooling_profile is_public p ≡ ok tt) ↔ (
        (is_subject_kind p.subject.kind ≡ true)
        × (p.subject.media_type ≢ none)
        × (is_empty p.checks ≡ false)
        × All IsScanCheck p.checks)
unfolding validate_agent_tooling_profile
validate_agent_tooling_profile_iff is_public p =
    let loop = each_iff validate_scan_entry p.checks in
    let sound = All-mono (λ e. (validate_scan_entry_iff e).0) p.checks in
    let complete = All-mono (λ e. (validate_scan_entry_iff e).1) p.checks in
    let n1 = validate_n1_profile_iff is_public p in
    let conforms = All-mono (scan-Conforms is_public) p.checks in
    (
      λ h. (ground arith, ground arith, (n1.0 (ground arith)).0, sound (loop.0 (ground arith))),
      λ h. ground (arith, loop.1 (complete h.3), n1.1 (h.2, conforms h.3)),
    )

-- ===== src/Tests/RuleTests.antt =====
-- trust.py and the two profiles at concrete inputs.
use checkseal.Common.{◌≡◌, ◌≢◌, ◌⊎◌, ◌↔◌, refl, true, false, none, All, is_empty}
use checkseal.Common.Text.{starts_with}
use checkseal.Common.Outcome.{ok}
use checkseal.Model.Enums.{Enforced, Grade}
use checkseal.Trust.{render_trust_floor, check_invariant_e1}
use checkseal.Trust.Laws.{render_trust_floor_iff}
use checkseal.Profile.{validate_n1_profile}
use checkseal.Profile.Laws.{Conforms, validate_n1_profile_iff}
use checkseal.AgentTooling.{validate_agent_tooling_profile, is_subject_kind}
use checkseal.AgentTooling.Laws.{IsScanCheck, validate_agent_tooling_profile_iff}
use checkseal.Tests.Data.{gate, sealed, scanned}

render_trust_floor_iff_example :
    ((render_trust_floor gate ≡ "enforced + reproducible")
      ↔ ((gate.verdict.enforced ≡ Enforced.enforced) × (gate.evidence.grade ≡ Grade.grade_a)))
    × ((render_trust_floor gate ≡ "telemetry only")
        ↔ ((gate.verdict.enforced ≡ Enforced.observed) ⊎ (gate.evidence.grade ≡ Grade.grade_c)))
    × ((render_trust_floor gate ≡ "surfaced") ↔ (
        (gate.verdict.enforced ≢ Enforced.observed)
        × (gate.evidence.grade ≢ Grade.grade_c)
        × ((gate.verdict.enforced ≡ Enforced.advisory) ⊎ (gate.evidence.grade ≡ Grade.grade_b))))
render_trust_floor_iff_example = render_trust_floor_iff gate

validate_n1_profile_iff_example :
    (validate_n1_profile true sealed ≡ ok tt)
    ↔ ((is_empty sealed.checks ≡ false) × All (Conforms true) sealed.checks)
validate_n1_profile_iff_example = validate_n1_profile_iff true sealed

validate_agent_tooling_profile_iff_example :
    (validate_agent_tooling_profile true scanned ≡ ok tt) ↔ (
      (is_subject_kind "skill_bundle" ≡ true)
      × (scanned.subject.media_type ≢ none)
      × (is_empty scanned.checks ≡ false)
      × All IsScanCheck scanned.checks)
validate_agent_tooling_profile_iff_example = validate_agent_tooling_profile_iff true scanned

scanned-accepted : validate_agent_tooling_profile true scanned ≡ ok tt
unfolding validate_agent_tooling_profile starts_with validate_n1_profile check_invariant_e1
scanned-accepted = refl

sealed-accepted : validate_n1_profile true sealed ≡ ok tt
unfolding validate_n1_profile check_invariant_e1
sealed-accepted = refl

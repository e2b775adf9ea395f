-- ===== src/Trust.antt =====
-- trust.py: the trust floor and the invariant E1.
pub mod Laws
use checkseal.Common.{
  zero, suc, ℕ, String, Bool, true, false, min, Option, none, some, ◌||◌, ◌&&◌, is_some,
  if◌then◌else◌,
}
use checkseal.Common.Outcome.{Outcome, ok, raise, vcr_error}
use checkseal.Model.Enums.{Enforced, Grade}
use checkseal.Model.CheckEntry.{CheckEntry}

unfoldable pub binding_rank : Enforced → ℕ
binding_rank Enforced.enforced = 2
binding_rank Enforced.advisory = 1
binding_rank Enforced.observed = 0

unfoldable pub grade_rank : Grade → ℕ
grade_rank Grade.grade_a = 2
grade_rank Grade.grade_b = 1
grade_rank Grade.grade_c = 0

unfoldable pub trust_floor : CheckEntry → ℕ
unfolding binding_rank grade_rank
trust_floor entry = min (binding_rank entry.verdict.enforced) (grade_rank entry.evidence.grade)

-- `_FLOOR_LABEL`; the dict has no other key.
pub floor_label : ℕ → String
floor_label zero = "telemetry only"
floor_label (suc zero) = "surfaced"
floor_label (suc (suc n)) = "enforced + reproducible"

unfoldable pub render_trust_floor : CheckEntry → String
unfolding floor_label trust_floor
render_trust_floor entry = floor_label (trust_floor entry)

abbrev pub is_enforced : Enforced → Bool
is_enforced Enforced.enforced = true
is_enforced _ = false

abbrev pub is_grade_a : Grade → Bool
is_grade_a Grade.grade_a = true
is_grade_a _ = false

abbrev pub is_grade_b : Grade → Bool
is_grade_b Grade.grade_b = true
is_grade_b _ = false

abbrev pub is_grade_c : Grade → Bool
is_grade_c Grade.grade_c = true
is_grade_c _ = false

-- Raises unless an enforced verdict has grade A, or grade B with a `config_ref`.
unfoldable pub check_invariant_e1 : CheckEntry → Outcome (Unit {0})
check_invariant_e1 entry =
    if is_enforced entry.verdict.enforced
    then if is_grade_a entry.evidence.grade
      then ok tt
      else if is_grade_b entry.evidence.grade && is_some entry.check.config_ref
      then ok tt
      else raise (vcr_error "E1 violated")
    else ok tt

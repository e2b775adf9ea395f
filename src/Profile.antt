-- ===== src/Profile.antt =====
-- profile.py: the N1 profile.
pub mod Laws
use checkseal.Common.{
  String, Bool, true, false, not, List, [], ◌∷◌, ◌&&◌, is_empty, is_some, if◌then◌else◌,
}
use checkseal.Common.Outcome.{Outcome, ok, raise, vcr_error, ◌>>=◌, ◌>>◌, require}
use checkseal.Model.Enums.{Authority}
use checkseal.Model.CheckEntry.{CheckEntry}
use checkseal.Model.Predicate.{Predicate}
use checkseal.Trust.{is_enforced, is_grade_c, check_invariant_e1}

abbrev pub is_operator : Authority → Bool
is_operator Authority.operator = true
is_operator _ = false

-- The body of the loop over the checks.
unfoldable pub validate_n1_entry : Bool → CheckEntry → Outcome (Unit {0})
validate_n1_entry is_public entry = do
  check_invariant_e1 entry
  require (not (is_grade_c entry.evidence.grade && not (is_operator entry.provenance.authority)))
      "N1: grade C requires operator attestation"
  require
      (not (
        is_public
        && is_enforced entry.verdict.enforced
        && not (is_some entry.verdict.enforced_proof)))
      "N1: public seal claims an enforced check but carries no enforced_proof"

-- A loop whose body may raise.
unfoldable pub each : (CheckEntry → Outcome (Unit {0})) → List CheckEntry → Outcome (Unit {0})
each f [] = ok tt
each f (e ∷ es) = do f e; each f es

unfoldable pub validate_n1_profile : Bool → Predicate → Outcome (Unit {0})
unfolding validate_n1_entry each
validate_n1_profile is_public predicate = do
  require (not (is_empty predicate.checks)) "N1: a seal must carry at least one check"
  each (validate_n1_entry is_public) predicate.checks

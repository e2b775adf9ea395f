-- ===== src/Profile/Laws.antt =====
-- What the N1 profile guarantees of every check.
use checkseal.Common.{
  Bool, true, false, ◌≡◌, ◌≢◌, ◌↔◌, List, [], ◌∷◌, none, arith, All, is_empty, refl, All-mono,
}
use checkseal.Common.Outcome.{Outcome, ok}
use checkseal.Model.Enums.{Enforced, Grade, Authority}
use checkseal.Model.CheckEntry.{CheckEntry}
use checkseal.Model.Predicate.{Predicate}
use checkseal.Trust.{check_invariant_e1}
use checkseal.Profile.{validate_n1_entry, each, validate_n1_profile}

-- The loop returns exactly if its body returns on every check.
pub each_iff :
    (f : CheckEntry → Outcome (Unit {0})) (es : List CheckEntry)
    → (each f es ≡ ok tt) ↔ All (λ e. f e ≡ ok tt) es
unfolding each
each_iff f [] = (λ _. tt, λ _. refl)
each_iff f (e ∷ es) = let ih = each_iff f es in (λ h. ground (arith, ih), λ h. ground (arith, ih))

-- The rules of the profile for one check.
pub record Conforms (is_public : Bool) (e : CheckEntry) : Type 0 where
  pub e1 : check_invariant_e1 e ≡ ok tt
  pub grade_c : e.evidence.grade ≡ Grade.grade_c → e.provenance.authority ≡ Authority.operator
  pub proof :
      is_public ≡ true → e.verdict.enforced ≡ Enforced.enforced → e.verdict.enforced_proof ≢ none

pub validate_n1_entry_iff :
    (is_public : Bool) (e : CheckEntry)
    → (validate_n1_entry is_public e ≡ ok tt) ↔ Conforms is_public e
unfolding validate_n1_entry
validate_n1_entry_iff is_public e = grind arith

-- The N1 profile accepts a predicate exactly if it has a check, and every check satisfies E1, has
-- operator authority where its evidence is grade C, and in a public seal has a proof where it is
-- enforced.
pub validate_n1_profile_iff :
    (is_public : Bool) (p : Predicate)
    → (validate_n1_profile is_public p ≡ ok tt)
      ↔ ((is_empty p.checks ≡ false) × All (Conforms is_public) p.checks)
unfolding validate_n1_profile
validate_n1_profile_iff is_public p =
    let loop = each_iff (validate_n1_entry is_public) p.checks in
    let sound = All-mono (λ e. (validate_n1_entry_iff is_public e).0) p.checks in
    let complete = All-mono (λ e. (validate_n1_entry_iff is_public e).1) p.checks in
    (λ h. (ground arith, sound (loop.0 (ground arith))), λ h. rw (h.0, loop.1 (complete h.1)) refl)

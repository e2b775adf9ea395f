-- ===== src/Trust/Laws.antt =====
-- What the trust floor and E1 promise a consumer.
use checkseal.Common.{◌<◌, ◌≡◌, ◌≢◌, ◌⊎◌, ◌↔◌, none, arith, min, String}
use checkseal.Common.Outcome.{ok}
use checkseal.Model.Enums.{Enforced, Grade}
use checkseal.Model.CheckEntry.{CheckEntry}
use checkseal.Trust.{
  trust_floor, binding_rank, grade_rank, floor_label, render_trust_floor, check_invariant_e1,
}

two-zero : ◌≡◌ {A = String} "enforced + reproducible" "telemetry only" → ⊥
two-zero h = cc

two-one : ◌≡◌ {A = String} "enforced + reproducible" "surfaced" → ⊥
two-one h = cc

one-zero : ◌≡◌ {A = String} "surfaced" "telemetry only" → ⊥
one-zero h = cc

-- The label of two ranks, for each verdict and grade.
label_iff :
    (b : Enforced) (g : Grade)
    → ((floor_label (min (binding_rank b) (grade_rank g)) ≡ "enforced + reproducible")
        ↔ ((b ≡ Enforced.enforced) × (g ≡ Grade.grade_a)))
      × ((floor_label (min (binding_rank b) (grade_rank g)) ≡ "telemetry only")
          ↔ ((b ≡ Enforced.observed) ⊎ (g ≡ Grade.grade_c)))
      × ((floor_label (min (binding_rank b) (grade_rank g)) ≡ "surfaced") ↔ (
          (b ≢ Enforced.observed)
          × (g ≢ Grade.grade_c)
          × ((b ≡ Enforced.advisory) ⊎ (g ≡ Grade.grade_b))))
unfolding floor_label binding_rank grade_rank
label_iff Enforced.enforced Grade.grade_a = ground (arith, two-zero, two-one, one-zero)
label_iff Enforced.enforced Grade.grade_b = ground (arith, two-zero, two-one, one-zero)
label_iff Enforced.enforced Grade.grade_c = ground (arith, two-zero, two-one, one-zero)
label_iff Enforced.advisory Grade.grade_a = ground (arith, two-zero, two-one, one-zero)
label_iff Enforced.advisory Grade.grade_b = ground (arith, two-zero, two-one, one-zero)
label_iff Enforced.advisory Grade.grade_c = ground (arith, two-zero, two-one, one-zero)
label_iff Enforced.observed Grade.grade_a = ground (arith, two-zero, two-one, one-zero)
label_iff Enforced.observed Grade.grade_b = ground (arith, two-zero, two-one, one-zero)
label_iff Enforced.observed Grade.grade_c = ground (arith, two-zero, two-one, one-zero)

-- The label of an entry is "enforced + reproducible" exactly for an enforced verdict with grade A
-- evidence, "telemetry only" exactly for an observed verdict or grade C evidence, and "surfaced"
-- exactly for all others, so an advisory verdict or grade B evidence lowers the label to
-- "surfaced".
pub render_trust_floor_iff :
    (e : CheckEntry)
    → ((render_trust_floor e ≡ "enforced + reproducible")
        ↔ ((e.verdict.enforced ≡ Enforced.enforced) × (e.evidence.grade ≡ Grade.grade_a)))
      × ((render_trust_floor e ≡ "telemetry only")
          ↔ ((e.verdict.enforced ≡ Enforced.observed) ⊎ (e.evidence.grade ≡ Grade.grade_c)))
      × ((render_trust_floor e ≡ "surfaced") ↔ (
          (e.verdict.enforced ≢ Enforced.observed)
          × (e.evidence.grade ≢ Grade.grade_c)
          × ((e.verdict.enforced ≡ Enforced.advisory) ⊎ (e.evidence.grade ≡ Grade.grade_b))))
unfolding render_trust_floor
render_trust_floor_iff e = label_iff e.verdict.enforced e.evidence.grade

-- E1 accepts an entry exactly if the verdict is not enforced, the evidence has grade A, or it has
-- grade B and the check names a configuration.
pub check_invariant_e1_iff :
    (e : CheckEntry)
    → (check_invariant_e1 e ≡ ok tt) ↔ (
        (e.verdict.enforced ≢ Enforced.enforced)
        ⊎ (e.evidence.grade ≡ Grade.grade_a)
        ⊎ ((e.evidence.grade ≡ Grade.grade_b) × (e.check.config_ref ≢ none)))
unfolding check_invariant_e1
check_invariant_e1_iff e = grind arith

-- An enforced verdict that E1 accepts is never rendered as telemetry.
pub enforced-floor-pos :
    (e : CheckEntry)
    → check_invariant_e1 e ≡ ok tt
    → e.verdict.enforced ≡ Enforced.enforced
    → 0 < trust_floor e
unfolding check_invariant_e1 trust_floor
enforced-floor-pos e h k = ground arith

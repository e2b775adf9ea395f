-- ===== src/Verify/Report.antt =====
-- verify.py `EntryFinding` and `VerificationReport`.
use checkseal.Common.{ℕ, String, Bool, ◌&&◌, List, Option, all_of, if◌then◌else◌}

pub record EntryFinding : Type 0 where
  pub check_id : String
  pub result : String
  pub enforced : String
  pub trust_floor : ℕ
  pub trust_floor_label : String
  pub reexecution : String
  pub enforced_proof : String
  pub trusted : Bool
  pub result_ok : Bool

-- `EntryFinding.ok`
pub finding_ok : EntryFinding → Bool
finding_ok e = e.trusted && e.result_ok

pub record VerificationReport : Type 0 where
  pub tier : String
  pub subject_digest_ok : Bool
  pub subject_reason : String
  pub signature_ok : Bool
  pub signature_reason : String
  pub identity : Option String
  pub freshness_reason : String
  pub freshness_ok : Bool
  pub entries : List EntryFinding

unfoldable pub authentic : VerificationReport → Bool
authentic r =
    r.subject_digest_ok && (r.signature_ok && (r.freshness_ok && all_of (λ e. e.trusted) r.entries))

unfoldable pub checks_passed : VerificationReport → Bool
checks_passed r = all_of (λ e. e.result_ok) r.entries

-- `VerificationReport.ok`
unfoldable pub report_ok : VerificationReport → Bool
unfolding authentic checks_passed
report_ok r = authentic r && checks_passed r

unfoldable pub passes : Bool → VerificationReport → Bool
unfolding report_ok
passes authentic_only r = if authentic_only then authentic r else report_ok r

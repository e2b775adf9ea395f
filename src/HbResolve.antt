-- ===== src/HbResolve.antt =====
-- hbresolve.py: an `enforced_proof` against a HarnessBench report.
pub mod Early
pub mod Report
pub mod Laws
pub mod Resolved
use checkseal.Common.{String, Bool, true, false, Option, none, some, str_eq, if◌then◌else◌}
use checkseal.Common.Outcome.{Outcome, ok, raise, json_decode_error}
use checkseal.Json.{Json}
use checkseal.JsonUtils.{loads_bytes}
use checkseal.Platform.{Platform, Bytes}
use checkseal.Model.CheckEntry.{CheckEntry}
use checkseal.Model.EnforcedProof.{EnforcedProof}
use Early.{ProofResolution, unresolved}
use Report.{resolve_report}

-- Takes a URI, and returns raw bytes or raises.
abbrev pub ReportLoader : Type 0
ReportLoader = String → Outcome Bytes

module _ (os : Platform) (entry : CheckEntry) where
  -- Only `json.JSONDecodeError` is caught: any other exception of `json.loads` goes on.
  resolve_decoded : Outcome Json → Outcome ProofResolution
  resolve_decoded (ok report) = ok (resolve_report os.is_digit entry report)
  resolve_decoded (raise json_decode_error) =
      ok (unresolved "gate unproven: proof is not valid JSON")
  resolve_decoded (raise e) = raise e

  resolve_loaded : EnforcedProof → Outcome Bytes → Outcome ProofResolution
  unfolding resolve_decoded
  resolve_loaded proof (raise e) = ok (unresolved "proof unresolvable")
  resolve_loaded proof (ok raw) =
      if str_eq (os.sha256_hex raw) proof.sha256
      then resolve_decoded (loads_bytes os raw)
      else ok
          (unresolved "gate unproven: proof content digest does not match enforced_proof.sha256")

  unfoldable pub resolve_enforced_proof :
      EnforcedProof → Option ReportLoader → Outcome ProofResolution
  unfolding resolve_loaded
  resolve_enforced_proof proof none =
      ok (unresolved "proof resolution requires an explicit root or supplied resolver")
  resolve_enforced_proof proof (some loader) = resolve_loaded proof (loader proof.uri)

-- ===== src/Tests/LifecycleTests.antt =====
-- Signing and verifying at a concrete predicate.
use checkseal.Common.{◌≡◌, ◌≢◌, ◌↔◌, ◌||◌, refl, true, false, Bool, [], ◌∷◌, none, some, all_of}
use checkseal.Common.Outcome.{ok}
use checkseal.Json.{null, fields_of, equals_text, get_or, text_of}
use checkseal.Json.Convert.{truthy}
use checkseal.JsonUtils.{loads_bytes, plain_json, insert}
use checkseal.Common.Text.{split_once, starts_with, drop, all_chars, rsplit_last}
use checkseal.HbResolve.{resolve_enforced_proof}
use checkseal.HbResolve.Report.{
  resolve_report, check_report, check_measurement, threat_class_of, score_of, float_of, in_unit,
  check_threat_class, below_floor, binds, count_of,
}
use checkseal.Model.Enums.{is_ok}
use checkseal.Platform.{Platform}
use checkseal.Profile.{validate_n1_profile}
use checkseal.Trust.{check_invariant_e1}
use checkseal.AgentTooling.{is_agent_tooling_subject}
use checkseal.Dsse.{envelope_to_jsonable}
use checkseal.Sign.{SigningTier, Signature, Identity}
use checkseal.Sign.Local.{local_signer, local_verify, local_verify_iff}
use checkseal.Seal.{Seal, sign_local, to_intoto_jsonl, validate_profiles}
use checkseal.Seal.Verifies.{signature_of, sign_local-verifies}
use checkseal.Verify.Report.{VerificationReport, passes}
use checkseal.Verify.Entries.{reexecution_step, proof_step}
use checkseal.Verify.Entries.Complete.{IsVouched, unenforced-IsVouched}
use checkseal.Verify.Local.{verify_local_seal}
use checkseal.Verify.Local.Complete.{minted}
use checkseal.Tests.Data.{gate, scan_check, sealed}
use checkseal.Tests.ModelTests.{sealed-IsWellFormed}
use checkseal.Tests.VerifyTests.{reexecute, fetch}
use checkseal.Tests.World.{
  world, scheme, seven, seven_verifier, keyid, world-Decodes, world-IsWritten, world-DecodesBase64,
  world-new_signer, world-verifier_of, world-AcceptsSigned,
}

abbrev notary : Platform
notary = world sealed null

sealed-profiles : validate_profiles false sealed ≡ ok tt
unfolding validate_profiles validate_n1_profile check_invariant_e1 is_agent_tooling_subject
sealed-profiles = refl

gate-IsVouched : IsVouched notary (some reexecute) (some fetch) gate
unfolding check_invariant_e1 reexecution_step proof_step resolve_enforced_proof loads_bytes
    plain_json resolve_report check_report check_measurement fields_of equals_text get_or insert
    text_of threat_class_of score_of float_of in_unit truthy split_once starts_with drop all_chars
    check_threat_class rsplit_last below_floor binds count_of
gate-IsVouched = record {
  e1 = refl;
  reexecuted = refl;
  reason = "enforced_proof resolved: config_sha256 bound";
  proof = refl;
  authority = λ h. cc;
}

scan-IsVouched : IsVouched notary (some reexecute) (some fetch) scan_check
scan-IsVouched =
    unenforced-IsVouched notary (some reexecute) (some fetch) scan_check (λ h. cc) refl (λ h. cc)

sign_local-verifies_example :
    (seal : Seal) × (report : VerificationReport) × (sign_local notary sealed
        (local_signer notary scheme seven)
        false
      ≡ ok seal)
    × (to_intoto_jsonl notary seal
        ≡ ok (
            notary.dump_ascii (
              envelope_to_jsonable notary
                (minted notary sealed (signature_of notary scheme seven sealed)))))
    × (verify_local_seal notary "seal"
          (local_verify notary scheme seven_verifier)
          (some "essay.md")
          none
          (some reexecute)
          (some fetch)
        ≡ ok report)
    × ((authentic_only : Bool)
        → passes authentic_only report
          ≡ (authentic_only || all_of (λ e. is_ok e.verdict.result) sealed.checks))
sign_local-verifies_example =
    sign_local-verifies notary scheme 7 seven seven_verifier sealed "seal" "essay.md" (98 ∷ [])
      (some reexecute) (some fetch) (world-new_signer sealed null) (world-verifier_of sealed null)
      (world-AcceptsSigned sealed null) (world-DecodesBase64 sealed null) refl sealed-IsWellFormed
      sealed-profiles (world-Decodes sealed null) (world-IsWritten sealed null) refl refl
      (gate-IsVouched, (scan-IsVouched, tt))

abbrev foreign : Signature
foreign = record { sig = 7 ∷ 1 ∷ []; keyid = some "ed25519:another"; cert = none }

abbrev as_seven : Identity
as_seven = record {
  tier = SigningTier.t1;
  subject = keyid;
  issuer = none;
  attested_authority = false;
}

local_verify_iff_example :
    (local_verify notary scheme seven_verifier (1 ∷ []) foreign ≡ ok as_seven) ↔ (
      (foreign.keyid ≢ none → foreign.keyid ≡ some keyid)
      × (scheme.accepts 7 foreign.sig (1 ∷ []) ≡ true)
      × (as_seven ≡ as_seven))
local_verify_iff_example = local_verify_iff notary scheme seven_verifier (1 ∷ []) foreign as_seven

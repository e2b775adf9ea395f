-- ===== src/Tests/KeylessTests.antt =====
-- verify.py `verify_keyless_seal` at a concrete bundle.
use checkseal.Common.{◌≡◌, refl, true, false, [], ◌∷◌, none, some}
use checkseal.Common.Outcome.{ok}
use checkseal.Tests.Data.{one_gate, machine}
use checkseal.Verify.Report.{VerificationReport, passes}
use checkseal.Verify.Entries.{entry_finding}
use checkseal.Model.Enums.{is_ok}
use checkseal.Statement.Laws.{parse_statement-build_statement}
use checkseal.Tests.ModelTests.{one_gate-IsWellFormed}
use checkseal.Sign.{SigningTier, Identity}
use checkseal.Dsse.{payload_type_in_toto}
use checkseal.Verify.Freshness.{Moment, freshness, integrated_time, is_fresh}
use checkseal.Verify.Keyless.{
  DsseVerifier, keyless_report, predicate_from_payload, verify_bundle_keyless, verify_keyless_seal,
}
use checkseal.Verify.Keyless.Genuine.{IsGenuineKeyless, verify_keyless_seal-IsGenuineKeyless}
use checkseal.JsonUtils.{plain_json, insert}
use checkseal.Json.{fields_of, get_or}
use checkseal.Json.Convert.{int_of}
use checkseal.Common.Int.{pos}
use checkseal.Verify.Render.{render, render-verdict}
use checkseal.Common.Text.{rsplit_last}
use checkseal.Common.{◌<>◌, if◌then◌else◌}
use checkseal.Tests.VerifyTests.{
  reexecute, fetch, gate_finding, statement-loaded, subject-checked, gate-verified,
}

abbrev pub verify_dsse : DsseVerifier
verify_dsse bundle identity issuer = ok (payload_type_in_toto, 2 ∷ [])

-- A minute after the log entry, against a bound of an hour.
abbrev pub now : Moment
now = record { ticks = 1700000060; rate_pred = 0 }

abbrev pub keyless_identity : Identity
keyless_identity = record {
  tier = SigningTier.t2;
  subject = "dev@example.org";
  issuer = some "https://issuer.example.org";
  attested_authority = true;
}

abbrev keyless : VerificationReport
keyless =
    keyless_report (true, "live digest matches") (true, "fresh") keyless_identity
      (gate_finding ∷ [])

pub payload-parsed : predicate_from_payload machine (2 ∷ []) ≡ ok one_gate
unfolding predicate_from_payload
payload-parsed =
    rw (statement-loaded) (parse_statement-build_statement one_gate one_gate-IsWellFormed)

bundle-fresh : freshness machine "bundle" (some (pos 3600)) now ≡ ok (true, "fresh")
unfolding freshness integrated_time is_fresh plain_json get_or fields_of insert int_of
bundle-fresh = refl

keyless-verified :
    verify_keyless_seal machine verify_dsse "bundle" "dev@example.org" "https://issuer.example.org"
      (some "essay.md")
      none
      (some reexecute)
      (some fetch)
      (some (pos 3600))
      now
    ≡ ok keyless
unfolding verify_keyless_seal verify_bundle_keyless
keyless-verified = rw (payload-parsed, subject-checked, bundle-fresh, gate-verified true) refl

verify_keyless_seal-IsGenuineKeyless_example :
    IsGenuineKeyless machine verify_dsse "bundle" "dev@example.org" "https://issuer.example.org"
      (some "essay.md")
      none
      (some reexecute)
      (some fetch)
      (some (pos 3600))
      now
      false
unfolding passes entry_finding is_ok
verify_keyless_seal-IsGenuineKeyless_example =
    verify_keyless_seal-IsGenuineKeyless machine verify_dsse "bundle" "dev@example.org"
      "https://issuer.example.org" (some "essay.md") none (some reexecute) (some fetch)
      (some (pos 3600)) now false {report = keyless} keyless-verified refl

render-verdict_example : rsplit_last 10 (render machine false keyless) ≡ (
    (if passes false keyless then "VERDICT: PASS" else "VERDICT: FAIL")
    <> (if false then " (authenticity only; check results not gated)" else ""))
render-verdict_example = render-verdict machine false keyless

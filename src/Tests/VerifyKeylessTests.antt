-- ===== src/Tests/VerifyKeylessTests.antt =====
-- __main__.py: a skill's scan, sealed and verified with Sigstore.
use checkseal.Common.{◌≡◌, refl, true, String, Bool, [], ◌∷◌, ◌||◌, Option, none, some, all_of}
use checkseal.Common.Text.{starts_with, universal_newlines}
use checkseal.Common.Outcome.{ok}
use checkseal.Model.Enums.{is_ok}
use checkseal.Model.Predicate
use checkseal.Model.Predicate.{Predicate}
use checkseal.Platform.{Platform}
use checkseal.Dsse.{payload_type_in_toto}
use checkseal.AgentTooling.{validate_agent_tooling_profile, is_agent_tooling_subject}
use checkseal.Profile.{validate_n1_profile}
use checkseal.Trust.{check_invariant_e1}
use checkseal.HbResolve.{ReportLoader}
use checkseal.Operantj.{read_text}
use checkseal.Sign.Keyless.{Sigstore, raw_token, sign_statement_keyless}
use checkseal.Seal.{Seal, sign_keyless, validate_profiles}
use checkseal.Verify.Report.{VerificationReport, passes}
use checkseal.Verify.Entries.{ReExecutor}
use checkseal.Verify.Entries.Complete.{IsVouched, unenforced-IsVouched}
use checkseal.Verify.Freshness.{Moment}
use checkseal.Verify.Keyless.{DsseVerifier, verify_keyless_seal}
use checkseal.Verify.Keyless.Genuine.{IsGenuineKeyless}
use checkseal.Verify.Keyless.Complete.{Signs, DecodesPayload, sign_keyless-verifies}
use checkseal.Cli.Loader.{build_reexecutor, build_loader}
use checkseal.Cli.Commands.{VerifyKeylessArgs, main, cmd_verify_keyless}
use checkseal.Cli.Commands.Laws.{IsEquipped, cmd_verify_keyless-IsGenuineKeyless}
use checkseal.Tests.BundleTests.{seed}
use checkseal.Tests.CliTests.{shell}
use checkseal.Tests.CommandTests.{found, bench, found-IsWellFormed}

abbrev office : Platform
office = record bench { dump_ascii = λ _. "statement" }

-- Every token is one, and every payload gets the bundle "report".
abbrev sigstore : Sigstore String
sigstore = record {
  installed = true;
  detect_credential = ok none;
  identity_token = λ raw. ok raw;
  sign_dsse = λ payload token. ok "report";
}

-- The Sigstore package accepts the bundle, over the statement's bytes.
abbrev verify_dsse : DsseVerifier
verify_dsse bundle identity issuer = ok (payload_type_in_toto, 97 ∷ [])

abbrev now : Moment
now = record { ticks = 1700000060; rate_pred = 0 }

abbrev keyless_args : VerifyKeylessArgs
keyless_args = record {
  seal = "seal";
  subject = "skill.zip";
  identity = "dev@example.org";
  issuer = "https://issuer.example.org";
  reexec = none;
  proof_root = none;
  max_age = none;
  authentic_only = true;
}

scan-signed :
    Signs office sigstore verify_dsse seed.predicate
      (some "jwt")
      "report"
      "dev@example.org"
      "https://issuer.example.org"
unfolding raw_token
scan-signed = record {
  installed = refl;
  raw = "jwt";
  token = "jwt";
  has_token = refl;
  is_token = refl;
  signed = refl;
  accepted = refl;
}

scan-DecodesPayload : DecodesPayload office seed.predicate
scan-DecodesPayload = record { text = refl; parsed = refl }

scan-profiles : validate_profiles true seed.predicate ≡ ok tt
unfolding validate_profiles validate_n1_profile check_invariant_e1 is_agent_tooling_subject
    validate_agent_tooling_profile starts_with
scan-profiles = refl

scan-IsWellFormed : Predicate.IsWellFormed seed.predicate
scan-IsWellFormed = record {
  subject = found-IsWellFormed.subject;
  checks = (found-IsWellFormed.entry, tt);
  some_check = refl;
  version = refl;
}

found-IsVouched : IsVouched office none none found
found-IsVouched = unenforced-IsVouched office none none found (λ h. cc) refl (λ h. cc)

sign_keyless-verifies_example :
    (seal : Seal) × (report : VerificationReport) × (sign_keyless office
        (sign_statement_keyless office sigstore)
        seed.predicate
        (some "jwt")
      ≡ ok seal)
    × (seal.bundle_json ≡ some "report")
    × (verify_keyless_seal office verify_dsse "report" "dev@example.org"
          "https://issuer.example.org"
          (some "skill.zip")
          none
          none
          none
          none
          now
        ≡ ok report)
    × ((authentic_only : Bool)
        → passes authentic_only report
          ≡ (authentic_only || all_of (λ e. is_ok e.verdict.result) seed.predicate.checks))
sign_keyless-verifies_example =
    sign_keyless-verifies office sigstore verify_dsse seed.predicate (some "jwt") "report"
      "dev@example.org" "https://issuer.example.org" "skill.zip" (98 ∷ []) none none none now
      scan-signed scan-IsWellFormed scan-profiles scan-DecodesPayload refl refl tt
      (found-IsVouched, tt)

keyless_verified : main (cmd_verify_keyless office verify_dsse shell now keyless_args) ≡ ok 0
unfolding main cmd_verify_keyless read_text build_reexecutor build_loader universal_newlines
keyless_verified =
    let (seal, report, a, b, c, d) =
      sign_keyless-verifies office sigstore verify_dsse seed.predicate (some "jwt") "report"
        "dev@example.org" "https://issuer.example.org" "skill.zip" (98 ∷ []) none none none now
        scan-signed scan-IsWellFormed scan-profiles scan-DecodesPayload refl refl tt
        (found-IsVouched, tt) in
    rw (c, d true) refl

cmd_verify_keyless-IsGenuineKeyless_example :
    (bundle : String) × (reexecutor : Option ReExecutor) × (loader : Option ReportLoader)
    × (read_text office "seal" ≡ ok bundle)
    × IsEquipped office shell none none reexecutor loader
    × IsGenuineKeyless office verify_dsse bundle "dev@example.org" "https://issuer.example.org"
        (some "skill.zip")
        none
        reexecutor
        loader
        none
        now
        true
cmd_verify_keyless-IsGenuineKeyless_example =
    cmd_verify_keyless-IsGenuineKeyless office shell verify_dsse now keyless_args keyless_verified

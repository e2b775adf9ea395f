-- ===== src/Tests/VerifyCommandTests.antt =====
-- __main__.py: sealing a stored scan, and verifying the seal.
use checkseal.Common.{
  ℕ, ◌≡◌, refl, true, false, ◌<>◌, [], ◌∷◌, ◌||◌, if◌then◌else◌, Option, none, some, all_of, arith,
}
use checkseal.Common.Int.{pos}
use checkseal.Common.Text.{strip, is_space, starts_with, length, take}
use checkseal.Common.Outcome.{ok, ◌>>◌}
use checkseal.Json.{fields_of, text_of, get_or}
use checkseal.Json.Sorted.{sort_json, insert_sorted}
use checkseal.Model.Enums.{is_ok, of_value, find_member}
use checkseal.Model.Subject
use checkseal.Model.Subject.{Subject}
use checkseal.Statement.{build_statement}
use checkseal.Digest.{canonical_bytes}
use checkseal.Dsse.{envelope_to_jsonable}
use checkseal.AgentTooling.{validate_agent_tooling_profile, is_agent_tooling_subject}
use checkseal.Profile.{validate_n1_profile}
use checkseal.Trust.{check_invariant_e1}
use checkseal.Sign.Local.{
  LocalKeyVerifier, local_verify, load_private_signer, load_public_verifier, new_signer,
  new_verifier, keyid_of, verifier_of, AcceptsSigned,
}
use checkseal.HbResolve.{ReportLoader}
use checkseal.Store.{Lines, append, result_to_jsonable}
use checkseal.Store.Refinement.{
  Represents, History, History-Represents, append-Log, logged_entries, logged_rows,
}
use checkseal.Seal.{validate_profiles, statement_bytes, signing_bytes}
use checkseal.Seal.Verifies.{signature_of}
use checkseal.Verify.Entries.{ReExecutor}
use checkseal.Verify.Entries.Complete.{IsVouched, unenforced-IsVouched}
use checkseal.Verify.Local.Complete.{IsWritten, Decodes, minted}
use checkseal.Verify.Local.Genuine.{IsGenuine}
use checkseal.Cli.Loader.{build_reexecutor, build_loader}
use checkseal.Cli.Commands.{VerifyArgs, SealArgs, main, subject_of_args, cmd_seal, cmd_verify}
use checkseal.Cli.Commands.Laws.{IsEquipped, cmd_verify-IsGenuine}
use checkseal.Cli.Commands.Lifecycle.{ReadsBack, logged_predicate, cmd_seal-cmd_verify}
use checkseal.Tests.Data.{digest, skill}
use checkseal.Tests.ModelTests.{digest-is_sha256}
use checkseal.Tests.EnvelopeTests.{coder-DecodesBase64}
use checkseal.Tests.CliTests.{shell}
use checkseal.Tests.CommandTests.{found, found_result, found_log, bench, save, found-Persists}
use checkseal.Tests.World.{scheme, seven, seven_verifier}

abbrev stored : Lines
stored = some ("row" ∷ [])

found-appended : append bench none found_result true ≡ ok (pos 1, stored)
unfolding get_or fields_of checkseal.Store.read logged_rows
found-appended = append-Log bench none [] found_result true refl found-Persists

stored-Represents : Represents bench stored found_log
stored-Represents =
    History-Represents bench stored found_log
      (History.grown (pos 1) found_result true History.fresh found-appended) (found-Persists, tt)

abbrev seal_args : SealArgs
seal_args = record {
  subject = "skill.zip";
  name = "skill-demo";
  kind = "skill_bundle";
  media_type = some "application/vnd.checkseal.bundle-manifest+json";
  out = "seal";
}

-- Authenticity only: the scan failed.
abbrev verify_args : VerifyArgs
verify_args = record {
  seal = "seal";
  subject = "skill.zip";
  pubkey = "key.pub";
  reexec = none;
  proof_root = none;
  authentic_only = true;
}

described : subject_of_args bench seal_args ≡ ok skill
unfolding subject_of_args of_value find_member
described = refl

skill-IsWellFormed : Subject.IsWellFormed skill
unfolding checkseal.Model.Fields.within length
skill-IsWellFormed = record { digest = digest-is_sha256; name = refl }

profiles : validate_profiles false (logged_predicate skill found_log) ≡ ok tt
unfolding validate_profiles validate_n1_profile check_invariant_e1 is_agent_tooling_subject
    validate_agent_tooling_profile starts_with logged_entries
profiles = refl

private_loaded : load_private_signer bench scheme "key" ≡ ok seven
unfolding load_private_signer new_signer keyid_of take
private_loaded = refl

public_loaded : load_public_verifier bench scheme "key.pub" ≡ ok seven_verifier
unfolding load_public_verifier new_verifier keyid_of take
public_loaded = refl

matching : verifier_of bench scheme seven ≡ ok seven_verifier
unfolding verifier_of keyid_of take
matching = refl

equipped : IsEquipped bench shell none none none none
unfolding build_reexecutor build_loader
equipped = record { reexecution = refl; loading = refl }

bench-AcceptsSigned : AcceptsSigned bench scheme
bench-AcceptsSigned key signed = ground arith

found-Decodes : Decodes bench (logged_predicate skill found_log)
unfolding statement_bytes canonical_bytes logged_entries build_statement get_or fields_of text_of
found-Decodes = record { text = refl; parsed = refl }

found-IsWritten : IsWritten bench "seal" (
    minted bench
      (logged_predicate skill found_log)
      (signature_of bench scheme seven (logged_predicate skill found_log)))
unfolding statement_bytes signing_bytes canonical_bytes envelope_to_jsonable strip is_space
    sort_json insert_sorted logged_entries build_statement get_or fields_of text_of
found-IsWritten = record { line = "envelope"; first_line = refl; stripped = refl; parsed = refl }

back : ReadsBack bench scheme seven (logged_predicate skill found_log) "seal"
back = record {
  accepts = bench-AcceptsSigned;
  base64 = coder-DecodesBase64;
  signed = refl;
  decodes = found-Decodes;
  written = found-IsWritten;
}

found-IsVouched : IsVouched bench none none found
found-IsVouched = unenforced-IsVouched bench none none found (λ h. cc) refl (λ h. cc)

cmd_seal-cmd_verify_example :
    (cmd_seal bench scheme save stored "key" seal_args ≡ (
      save "seal" (
        bench.encode_utf8 (
          bench.dump_ascii (
            envelope_to_jsonable bench (
              minted bench
                (logged_predicate skill found_log)
                (signature_of bench scheme seven (logged_predicate skill found_log))))
          <> "\n"))
      >> ok 0))
    × (main (cmd_verify bench scheme shell verify_args)
        ≡ ok (
            if true || all_of (λ e. is_ok e.verdict.result) (logged_entries digest found_log)
            then 0
            else 1))
unfolding logged_entries
cmd_seal-cmd_verify_example =
    cmd_seal-cmd_verify bench scheme shell save stored found_log "key" seal_args verify_args skill
      seven seven_verifier none none stored-Represents described skill-IsWellFormed refl profiles
      private_loaded public_loaded matching equipped refl back (found-IsVouched, tt)

verified : main (cmd_verify bench scheme shell verify_args) ≡ ok 0
unfolding logged_entries
verified =
    (cmd_seal-cmd_verify bench scheme shell save stored found_log "key" seal_args verify_args skill
      seven seven_verifier none none stored-Represents described skill-IsWellFormed refl profiles
      private_loaded public_loaded matching equipped refl back (found-IsVouched, tt)).1

cmd_verify-IsGenuine_example :
    (verifier : LocalKeyVerifier ℕ) × (reexecutor : Option ReExecutor) × (loader : Option
      ReportLoader)
    × (load_public_verifier bench scheme "key.pub" ≡ ok verifier)
    × IsEquipped bench shell none none reexecutor loader
    × IsGenuine bench "seal"
        (local_verify bench scheme verifier)
        (some "skill.zip")
        none
        reexecutor
        loader
        true
cmd_verify-IsGenuine_example = cmd_verify-IsGenuine bench shell scheme verify_args verified

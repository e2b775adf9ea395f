-- ===== src/Cli/Commands/Laws.antt =====
-- What exit code 0 of the verifying commands stands for.
use checkseal.Common.{ℕ, ◌≡◌, String, Bool, true, Option, none, some, arith}
use checkseal.Common.Outcome.{Outcome, ok, >>=-eq-ok}
use checkseal.Platform.{Platform}
use checkseal.Sign.Local.{Cryptography, LocalKeyVerifier, local_verify, load_public_verifier}
use checkseal.Operantj.{read_text}
use checkseal.HbResolve.{ReportLoader}
use checkseal.Verify.Report.{passes}
use checkseal.Verify.Entries.{ReExecutor}
use checkseal.Verify.Local.{verify_local_seal}
use checkseal.Verify.Local.Genuine.{IsGenuine, verify_local_seal-IsGenuine}
use checkseal.Verify.Freshness.{Moment}
use checkseal.Verify.Keyless.{DsseVerifier, verify_keyless_seal}
use checkseal.Verify.Keyless.Genuine.{IsGenuineKeyless, verify_keyless_seal-IsGenuineKeyless}
use checkseal.Cli.Loader.{Shell, build_reexecutor, build_loader}
use checkseal.Cli.Commands.{
  VerifyArgs, VerifyKeylessArgs, exit_code, main, cmd_verify, cmd_verify_keyless,
}

main-zero : (ended : Outcome ℕ) → main ended ≡ ok 0 → ended ≡ ok 0
unfolding main
main-zero ended h = ground arith

exit_code-zero : (b : Bool) → ◌≡◌ {A = Outcome ℕ} (ok (exit_code b)) (ok 0) → b ≡ true
exit_code-zero b h = ground arith

-- What the two commands build of their arguments.
pub record IsEquipped (os : Platform) (shell : Shell) (reexec proof_root : Option String)
    (reexecutor : Option ReExecutor) (loader : Option ReportLoader) : Type 0 where
  pub reexecution : build_reexecutor shell reexec ≡ ok reexecutor
  pub loading : build_loader shell os proof_root ≡ ok loader

module _ (os : Platform) (shell : Shell) where
  -- If `checkseal verify` exits with 0, then the file of the seal is genuine for the public key that
  -- was given: its envelope has a signature that the key accepts, over a well-formed predicate bound
  -- to the subject's file, every entry trusted under the re-executor and the loader that the
  -- arguments make, and no failing result unless only authenticity was asked for.
  pub cmd_verify-IsGenuine :
      {PrivateKey PublicKey : Type 0} (crypto : Cryptography PrivateKey PublicKey)
      (args : VerifyArgs)
      → main (cmd_verify os crypto shell args) ≡ ok 0
      → (verifier : LocalKeyVerifier PublicKey) × (reexecutor : Option ReExecutor)
        × (loader : Option ReportLoader) × (load_public_verifier os crypto args.pubkey
            ≡ ok verifier)
        × IsEquipped os shell args.reexec args.proof_root reexecutor loader
        × IsGenuine os args.seal
            (local_verify os crypto verifier)
            (some args.subject)
            none
            reexecutor
            loader
            args.authentic_only
  unfolding cmd_verify
  cmd_verify-IsGenuine crypto args h =
      let (verifier, a, h1) =
        >>=-eq-ok (load_public_verifier os crypto args.pubkey) _
          (main-zero (cmd_verify os crypto shell args) h) in
      let (reexecutor, b, h2) = >>=-eq-ok (build_reexecutor shell args.reexec) _ h1 in
      let (loader, c, h3) = >>=-eq-ok (build_loader shell os args.proof_root) _ h2 in
      let (report, d, h4) =
        >>=-eq-ok
          (verify_local_seal os args.seal (local_verify os crypto verifier) (some args.subject) none
            reexecutor loader)
          _ h3 in
      (
        verifier,
        reexecutor,
        loader,
        a,
        record { reexecution = b; loading = c },
        verify_local_seal-IsGenuine os args.seal (local_verify os crypto verifier)
            (some args.subject) none reexecutor loader args.authentic_only {report = report} d
            (exit_code-zero (passes args.authentic_only report) h4),
      )

  -- If `checkseal verify-keyless` exits with 0, then the bundle in the file is genuine for the
  -- expected identity and issuer: Sigstore verifies it, over a well-formed predicate bound to the
  -- subject's file, no older than a requested bound allows, every entry trusted under the
  -- re-executor and the loader that the arguments make, and no failing result unless only
  -- authenticity was asked for.
  pub cmd_verify_keyless-IsGenuineKeyless :
      (verify_dsse : DsseVerifier) (now : Moment) (args : VerifyKeylessArgs)
      → main (cmd_verify_keyless os verify_dsse shell now args) ≡ ok 0
      → (bundle : String) × (reexecutor : Option ReExecutor) × (loader : Option ReportLoader)
        × (read_text os args.seal ≡ ok bundle)
        × IsEquipped os shell args.reexec args.proof_root reexecutor loader
        × IsGenuineKeyless os verify_dsse bundle args.identity args.issuer
            (some args.subject)
            none
            reexecutor
            loader
            args.max_age
            now
            args.authentic_only
  unfolding cmd_verify_keyless
  cmd_verify_keyless-IsGenuineKeyless verify_dsse now args h =
      let (bundle, a, h1) =
        >>=-eq-ok (read_text os args.seal) _
          (main-zero (cmd_verify_keyless os verify_dsse shell now args) h) in
      let (reexecutor, b, h2) = >>=-eq-ok (build_reexecutor shell args.reexec) _ h1 in
      let (loader, c, h3) = >>=-eq-ok (build_loader shell os args.proof_root) _ h2 in
      let (report, d, h4) =
        >>=-eq-ok
          (verify_keyless_seal os verify_dsse bundle args.identity args.issuer (some args.subject)
            none reexecutor loader args.max_age now)
          _ h3 in
      (
        bundle,
        reexecutor,
        loader,
        a,
        record { reexecution = b; loading = c },
        verify_keyless_seal-IsGenuineKeyless os verify_dsse bundle args.identity args.issuer
            (some args.subject) none reexecutor loader args.max_age now args.authentic_only
            {report = report} d (exit_code-zero (passes args.authentic_only report) h4),
      )

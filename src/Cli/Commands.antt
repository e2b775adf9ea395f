-- ===== src/Cli/Commands.antt =====
-- __main__.py: `verify`, `verify-keyless`, `seal` and `seal-keyless`, and the exit code of `main`.
pub mod Laws
pub mod Lifecycle
use checkseal.Common.{ℕ, String, ◌<>◌, Bool, true, false, Option, none, some, if◌then◌else◌}
use checkseal.Common.Int.{ℤ}
use checkseal.Common.Outcome.{
  Outcome, ok, raise, vcr_error, value_error, json_decode_error, unicode_decode_error, os_error,
  runtime_error, ◌>>=◌, ◌>>◌,
}
use checkseal.Model.Enums.{SubjectKind, value, of_value, subject_kind_enum}
use checkseal.Model.Subject.{Subject}
use checkseal.Platform.{Platform, Bytes}
use checkseal.Digest.{sha256_file}
use checkseal.Sign.Local.{
  Cryptography, local_signer, local_verify, load_private_signer, load_public_verifier,
}
use checkseal.Operantj.{read_text}
use checkseal.Store.{Lines, read_for_subject}
use checkseal.Seal.{KeylessSigner, assemble, sign_local, sign_keyless, to_intoto_jsonl}
use checkseal.Verify.Report.{passes}
use checkseal.Verify.Local.{verify_local_seal}
use checkseal.Verify.Freshness.{Moment}
use checkseal.Verify.Keyless.{DsseVerifier, verify_keyless_seal}
use checkseal.Cli.Loader.{Shell, build_reexecutor, build_loader}

-- `_write_atomic`, as its caller sees it.
abbrev pub Save : Type 0
Save = String → Bytes → Outcome (Unit {0})

pub record VerifyArgs : Type 0 where
  pub seal : String
  pub subject : String
  pub pubkey : String
  pub reexec : Option String
  pub proof_root : Option String
  pub authentic_only : Bool

pub record VerifyKeylessArgs : Type 0 where
  pub seal : String
  pub subject : String
  pub identity : String
  pub issuer : String
  pub reexec : Option String
  pub proof_root : Option String
  pub max_age : Option ℤ
  pub authentic_only : Bool

-- The arguments of both sealing commands that describe the subject, and the output.
pub record SealArgs : Type 0 where
  pub subject : String
  pub name : String
  pub kind : String
  pub media_type : Option String
  pub out : String

-- `0 if … else 1`
abbrev pub exit_code : Bool → ℕ
exit_code passed = if passed then 0 else 1

-- `bundle_json or ""`
abbrev pub text_or_empty : Option String → String
text_or_empty none = ""
text_or_empty (some text) = text

-- The `except` clause of `main`; any other exception leaves it.
unfoldable pub main : Outcome ℕ → Outcome ℕ
main (raise os_error) = ok 2
main (raise runtime_error) = ok 2
main (raise (vcr_error _)) = ok 2
main (raise (value_error _)) = ok 2
main (raise json_decode_error) = ok 2
main (raise unicode_decode_error) = ok 2
main ended = ended

module _ (os : Platform) where
  -- The subject of both sealing commands.
  unfoldable pub subject_of_args : SealArgs → Outcome Subject
  subject_of_args args = do
    let kind_of : Outcome SubjectKind = of_value args.kind
    kind ← kind_of
    digest ← sha256_file os args.subject
    ok (record {
      kind = value kind;
      digest = digest;
      name = args.name;
      media_type = args.media_type;
    })

  -- `_cmd_seal_keyless`
  unfoldable pub cmd_seal_keyless :
      KeylessSigner → Save → Lines → Option String → SealArgs → Outcome ℕ
  cmd_seal_keyless sign_statement save store identity_token args = do
    subject ← subject_of_args args
    predicate ← assemble (read_for_subject os store) subject
    seal ← sign_keyless os sign_statement predicate identity_token
    save args.out (os.encode_utf8 (text_or_empty seal.bundle_json))
    ok 0

  -- `_cmd_verify_keyless`
  unfoldable pub cmd_verify_keyless : DsseVerifier → Shell → Moment → VerifyKeylessArgs → Outcome ℕ
  cmd_verify_keyless verify_dsse shell now args = do
    bundle ← read_text os args.seal
    reexecutor ← build_reexecutor shell args.reexec
    loader ← build_loader shell os args.proof_root
    report ←
        verify_keyless_seal os verify_dsse bundle args.identity args.issuer (some args.subject) none
          reexecutor loader args.max_age now
    ok (exit_code (passes args.authentic_only report))

  module _ {PrivateKey PublicKey : Type 0} (crypto : Cryptography PrivateKey PublicKey) where
    -- `_cmd_seal`
    unfoldable pub cmd_seal : Save → Lines → String → SealArgs → Outcome ℕ
    cmd_seal save store key args = do
      subject ← subject_of_args args
      predicate ← assemble (read_for_subject os store) subject
      signer ← load_private_signer os crypto key
      seal ← sign_local os predicate (local_signer os crypto signer) false
      text ← to_intoto_jsonl os seal
      save args.out (os.encode_utf8 (text <> "\n"))
      ok 0

    -- `_cmd_verify`
    unfoldable pub cmd_verify : Shell → VerifyArgs → Outcome ℕ
    cmd_verify shell args = do
      verifier ← load_public_verifier os crypto args.pubkey
      reexecutor ← build_reexecutor shell args.reexec
      loader ← build_loader shell os args.proof_root
      report ←
          verify_local_seal os args.seal (local_verify os crypto verifier) (some args.subject) none
            reexecutor loader
      ok (exit_code (passes args.authentic_only report))

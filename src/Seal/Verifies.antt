-- ===== src/Seal/Verifies.antt =====
-- From the key to the verdict: a seal that a local key signs verifies with the matching public key.
use checkseal.Common.{
  String, Bool, false, ◌||◌, ◌≡◌, refl, Option, none, some, arith, All, all_of, is_empty,
}
use checkseal.Common.Outcome.{ok}
use checkseal.Model.Enums.{is_ok}
use checkseal.Model.Predicate.{Predicate, IsWellFormed}
use checkseal.Platform.{Platform, Bytes}
use checkseal.Sign.{SigningTier, Signature}
use checkseal.Sign.Local.{
  Cryptography, LocalKeySigner, LocalKeyVerifier, new_signer, verifier_of, local_signer,
  local_verify, AcceptsSigned, local_verify-sign,
}
use checkseal.Dsse.{envelope_to_jsonable}
use checkseal.Dsse.RoundTrip.{DecodesBase64}
use checkseal.HbResolve.{ReportLoader}
use checkseal.Statement.{build_statement}
use checkseal.Seal.{
  Seal, statement_bytes, signing_bytes, sign_local, to_intoto_jsonl, validate_profiles,
}
use checkseal.Verify.Report.{VerificationReport, passes}
use checkseal.Verify.Entries.{ReExecutor, profile_of}
use checkseal.Verify.Entries.Complete.{IsVouched}
use checkseal.Verify.Local.{verify_local_seal}
use checkseal.Verify.Local.Complete.{IsWritten, Decodes, minted, verify_minted}

validate_profiles-profile_of :
    (p : Predicate) → validate_profiles false p ≡ ok tt → profile_of p ≡ ok tt
unfolding validate_profiles profile_of
validate_profiles-profile_of p h = ground arith

module _ (os : Platform) {PrivateKey PublicKey : Type 0}
    (crypto : Cryptography PrivateKey PublicKey) where
  -- The signature of a signer over a predicate's Statement.
  abbrev pub signature_of : LocalKeySigner PrivateKey → Predicate → Signature
  signature_of s p = record {
    sig = crypto.sign s.key (signing_bytes os (statement_bytes os p));
    keyid = some s.keyid;
    cert = none;
  }

  pub sign_local-local_signer :
      (s : LocalKeySigner PrivateKey) (p : Predicate)
      → validate_profiles false p ≡ ok tt
      → sign_local os p (local_signer os crypto s) false
        ≡ ok (record {
          tier = SigningTier.t1;
          statement = build_statement p;
          envelope = some (minted os p (signature_of s p));
          bundle_json = none;
        })
  unfolding sign_local local_signer
  sign_local-local_signer s p h = rw (h) refl

  -- Where base64, JSON and the signature scheme undo what they did: if a well-formed predicate
  -- satisfies the profiles, a signer with a key signs it; and if the text of the seal is written to
  -- a file, the file that the subject's digest was taken of is still the same, and every entry is
  -- vouched for, then verifying with the signer's own verifier returns a report. It is authentic, and
  -- it passes as a whole exactly if no check has a failing result.
  pub sign_local-verifies :
      (key : PrivateKey) (s : LocalKeySigner PrivateKey) (v : LocalKeyVerifier PublicKey)
      (p : Predicate) (path subject_path : String) (content : Bytes)
      (reexecutor : Option ReExecutor) (loader : Option ReportLoader)
      → new_signer os crypto key ≡ ok s
      → verifier_of os crypto s ≡ ok v
      → AcceptsSigned os crypto
      → DecodesBase64 os
      → is_empty (signature_of s p).sig ≡ false
      → IsWellFormed p
      → validate_profiles false p ≡ ok tt
      → Decodes os p
      → IsWritten os path (minted os p (signature_of s p))
      → os.read_file subject_path ≡ ok content
      → os.sha256_hex content ≡ p.subject.digest
      → All (IsVouched os reexecutor loader) p.checks
      → (seal : Seal) × (report : VerificationReport) × (sign_local os p
            (local_signer os crypto s)
            false
          ≡ ok seal)
        × (to_intoto_jsonl os seal
            ≡ ok (os.dump_ascii (envelope_to_jsonable os (minted os p (signature_of s p)))))
        × (verify_local_seal os path
              (local_verify os crypto v)
              (some subject_path)
              none
              reexecutor
              loader
            ≡ ok report)
        × ((authentic_only : Bool)
            → passes authentic_only report
              ≡ (authentic_only || all_of (λ e. is_ok e.verdict.result) p.checks))
  unfolding to_intoto_jsonl local_signer
  sign_local-verifies key s v p path subject_path content reexecutor loader made ver accepts base64
        signed w profiles dec written live bound vouched =
      let (sig, a, b) =
        local_verify-sign os crypto key s v (signing_bytes os (statement_bytes os p)) accepts made
          ver in
      let (report, c, d) =
        verify_minted os path subject_path content reexecutor loader p (signature_of s p)
          (local_verify os crypto v)
          (record {
            tier = SigningTier.t1;
            subject = s.keyid;
            issuer = none;
            attested_authority = false;
          })
          w dec base64 signed written (cc (a, b)) live bound
          (validate_profiles-profile_of p profiles) vouched in
      (
        record {
          tier = SigningTier.t1;
          statement = build_statement p;
          envelope = some (minted os p (signature_of s p));
          bundle_json = none;
        },
        report,
        sign_local-local_signer s p profiles,
        refl,
        c,
        d,
      )

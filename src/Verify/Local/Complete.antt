-- ===== src/Verify/Local/Complete.antt =====
-- A seal that is signed, written and left alone verifies.
use text.Mathlib.TextPositions.{eq_refl}
use checkseal.Common.{
  String, Bool, true, false, ◌||◌, ◌≡◌, refl, [], ◌∷◌, Option, none, some, arith, All, all_of,
  is_empty,
}
use checkseal.Common.Text.{strip}
use checkseal.Common.Outcome.{ok}
use checkseal.Json.Sorted.{sort_json}
use checkseal.JsonUtils.{loads_unique_json}
use checkseal.JsonUtils.Sorted.{unique_json-sort_json}
use checkseal.Model.Enums.{is_ok}
use checkseal.Model.Predicate.{Predicate, IsWellFormed}
use checkseal.Statement.{build_statement}
use checkseal.Statement.Laws.{parse_statement-build_statement}
use checkseal.Statement.Unordered.{parse_statement-sort_json, build_statement_distinct}
use checkseal.Platform.{Platform, Bytes}
use checkseal.Sign.{Signature, Identity, SignatureVerifier}
use checkseal.Dsse.{Envelope, envelope_to_jsonable, payload_type_in_toto}
use checkseal.Dsse.RoundTrip.{DecodesBase64, IsSigned, Envelope-round_trip}
use checkseal.Dsse.Unordered.{envelope-sort_json, envelope_distinct}
use checkseal.HbResolve.{ReportLoader}
use checkseal.Seal.{statement_bytes, signing_bytes}
use checkseal.Verify.Report.{VerificationReport, passes}
use checkseal.Verify.Entries.{ReExecutor, profile_of}
use checkseal.Verify.Entries.Complete.{IsVouched, verify_entries-vouched}
use checkseal.Verify.Local.{
  load_envelope, predicate_from_envelope, live_digest, check_subject, compare_digest,
  try_signatures, verify_signature_local, local_report, verify_predicate, verify_local_seal,
}

module _ (os : Platform) where
  -- The first line of the file is the text, and `json.loads` gives back the envelope that
  -- `json.dumps` wrote, its members sorted.
  pub record IsWritten (path : String) (env : Envelope) : Type 0 where
    pub line : String
    pub first_line : os.read_first_line path ≡ ok line
    pub stripped : strip line ≡ os.dump_ascii (envelope_to_jsonable os env)
    pub parsed :
        os.parse_json (os.dump_ascii (envelope_to_jsonable os env))
        ≡ ok (sort_json (envelope_to_jsonable os env))

  -- The canonical bytes of the Statement decode to it, its members sorted.
  pub record Decodes (p : Predicate) : Type 0 where
    pub text : os.decode_utf8 (statement_bytes os p) ≡ ok (os.dump_json (build_statement p))
    pub parsed :
        os.parse_json (os.dump_json (build_statement p)) ≡ ok (sort_json (build_statement p))

  -- The envelope of a seal with one signature.
  abbrev pub minted : Predicate → Signature → Envelope
  minted p sig = record {
    payload = statement_bytes os p;
    payload_type = payload_type_in_toto;
    signatures = sig ∷ [];
  }

  load_envelope-written :
      (path : String) (env : Envelope)
      → DecodesBase64 os
      → is_empty env.signatures ≡ false
      → All IsSigned env.signatures
      → IsWritten path env
      → load_envelope os path ≡ ok env
  unfolding load_envelope loads_unique_json
  load_envelope-written path env base64 some_sig signed h =
      rw
        (
          h.first_line,
          h.stripped,
          h.parsed,
          unique_json-sort_json (envelope_to_jsonable os env) (envelope_distinct os env),
          envelope-sort_json os (envelope_to_jsonable os env),
        )
        (Envelope-round_trip os base64 env some_sig signed)

  predicate_from_envelope-minted :
      (p : Predicate) (sig : Signature)
      → IsWellFormed p
      → Decodes p
      → predicate_from_envelope os (minted p sig) ≡ ok p
  unfolding predicate_from_envelope loads_unique_json
  predicate_from_envelope-minted p sig w h =
      rw
        (
          h.text,
          h.parsed,
          unique_json-sort_json (build_statement p) (build_statement_distinct p),
          parse_statement-sort_json (build_statement p),
        )
        (parse_statement-build_statement p w)

  pub check_subject-live :
      (p : Predicate) (path : String) (content : Bytes)
      → os.read_file path ≡ ok content
      → os.sha256_hex content ≡ p.subject.digest
      → check_subject os p (some path) none ≡ ok (true, "live digest matches")
  unfolding check_subject live_digest compare_digest
  check_subject-live p path content r e = rw (r, e) (ground (arith, eq_refl p.subject.digest))

  verify_signature-minted :
      (p : Predicate) (sig : Signature) (verifier : SignatureVerifier) (identity : Identity)
      → verifier (signing_bytes os (statement_bytes os p)) sig ≡ ok identity
      → verify_signature_local os (minted p sig) verifier
        ≡ ok (record {
          valid = true;
          reason = "Ed25519 signature valid over DSSE PAE";
          identity = some identity;
        })
  unfolding verify_signature_local try_signatures signing_bytes
  verify_signature-minted p sig verifier identity h = rw (h) refl

module _ (os : Platform) (path subject_path : String) (content : Bytes)
    (reexecutor : Option ReExecutor) (loader : Option ReportLoader) where
  pub verify_minted :
      (p : Predicate) (sig : Signature) (verifier : SignatureVerifier) (identity : Identity)
      → IsWellFormed p
      → Decodes os p
      → DecodesBase64 os
      → IsSigned sig
      → IsWritten os path (minted os p sig)
      → verifier (signing_bytes os (statement_bytes os p)) sig ≡ ok identity
      → os.read_file subject_path ≡ ok content
      → os.sha256_hex content ≡ p.subject.digest
      → profile_of p ≡ ok tt
      → All (IsVouched os reexecutor loader) p.checks
      → (report : VerificationReport) × (verify_local_seal os path verifier
            (some subject_path)
            none
            reexecutor
            loader
          ≡ ok report)
        × ((authentic_only : Bool)
            → passes authentic_only report
              ≡ (authentic_only || all_of (λ e. is_ok e.verdict.result) p.checks))
  unfolding verify_local_seal verify_predicate passes
  verify_minted p sig verifier identity w dec base64 signed written accepted live bound profile
        vouched =
      let (fs, a, b, c) =
        verify_entries-vouched os reexecutor loader identity.attested_authority p profile vouched in
      (
        local_report (true, "live digest matches")
            (record {
              valid = true;
              reason = "Ed25519 signature valid over DSSE PAE";
              identity = some identity;
            })
            fs,
        rw
            (
              load_envelope-written os path (minted os p sig) base64 refl (signed, tt) written,
              predicate_from_envelope-minted os p sig w dec,
              check_subject-live os p subject_path content live bound,
              verify_signature-minted os p sig verifier identity accepted,
              a,
            )
            refl,
        (λ authentic_only. ground (arith, b, c)),
      )

-- ===== src/Verify/Local.antt =====
-- verify.py: `_check_subject`, `_verify_signature_local`, `load_envelope` and `verify_local_seal`.
pub mod Laws
pub mod Steps
pub mod Genuine
pub mod Gated
pub mod Tooling
pub mod Complete
use checkseal.Common.{
  String, Bool, true, false, ◌&&◌, List, [], ◌∷◌, Option, none, some, str_eq, if◌then◌else◌,
}
use checkseal.Common.Text.{strip}
use checkseal.Common.Outcome.{Outcome, Exn, ok, raise, vcr_error, ◌>>=◌, ◌>>◌, require}
use checkseal.Json.{Json}
use checkseal.JsonUtils.{loads_unique_json}
use checkseal.Model.Predicate.{Predicate}
use checkseal.Statement.{parse_statement}
use checkseal.Platform.{Platform, Bytes}
use checkseal.Digest.{sha256_file}
use checkseal.Sign.{Signature, Identity, SignatureVerifier, tier_value}
use checkseal.Dsse.{Envelope, envelope_from_jsonable, payload_type_in_toto}
use checkseal.Dsse.Pae.{pae}
use checkseal.HbResolve.{ReportLoader}
use checkseal.Verify.Report.{EntryFinding, VerificationReport}
use checkseal.Verify.Entries.{ReExecutor, verify_entries}

-- What `_verify_signature_local` returns.
pub record SignatureCheck : Type 0 where
  pub valid : Bool
  pub reason : String
  pub identity : Option Identity

-- The loop over the signatures, with the last error. Only `VCRError` is caught.
pub try_signatures : SignatureVerifier → Bytes → String → List Signature → Outcome SignatureCheck
try_signatures verifier signed last_err [] =
    ok (record { valid = false; reason = last_err; identity = none })
try_signatures verifier signed last_err (sig ∷ sigs) = elim (verifier signed sig) [
  | ok identity ↦ ok (record {
    valid = true;
    reason = "Ed25519 signature valid over DSSE PAE";
    identity = some identity;
  })
  | raise (vcr_error msg) ↦ try_signatures verifier signed msg sigs
  | raise e ↦ raise e
]

compare_digest : Predicate → Option String → Bool × String
compare_digest predicate none = (false, "no live subject provided")
compare_digest predicate (some live) =
    if str_eq live predicate.subject.digest
    then (true, "live digest matches")
    else (false, "live digest != sealed")

abbrev pub attested : Option Identity → Bool
attested none = false
attested (some identity) = identity.attested_authority

abbrev pub tier_of : Option Identity → String
tier_of none = "T1"
tier_of (some identity) = tier_value identity.tier

abbrev pub subject_of : Option Identity → Option String
subject_of none = none
subject_of (some identity) = some identity.subject

abbrev pub local_report : Bool × String → SignatureCheck → List EntryFinding → VerificationReport
local_report subject sig entries = record {
  tier = tier_of sig.identity;
  subject_digest_ok = subject.0;
  subject_reason = subject.1;
  signature_ok = sig.valid;
  signature_reason = sig.reason;
  identity = subject_of sig.identity;
  freshness_reason = "n/a: local tier has no transparency log; public N1 seals must be T2";
  freshness_ok = true;
  entries = entries;
}

module _ (os : Platform) where
  -- `load_envelope`
  unfoldable pub load_envelope : String → Outcome Envelope
  load_envelope seal_path = do
    first ← os.read_first_line seal_path
    v ← loads_unique_json os (strip first)
    envelope_from_jsonable os v

  -- `_predicate_from_envelope`
  unfoldable pub predicate_from_envelope : Envelope → Outcome Predicate
  predicate_from_envelope env = do
    require (str_eq env.payload_type payload_type_in_toto) "unexpected DSSE payloadType"
    text ← os.decode_utf8 env.payload
    statement ← loads_unique_json os text
    parse_statement statement

  -- The digest of the live subject: of the file, if a path is given, or of the bytes.
  unfoldable pub live_digest : Option String → Option Bytes → Outcome (Option String)
  live_digest none none = ok none
  live_digest none (some b) = ok (some (os.sha256_hex b))
  live_digest (some path) b = do live ← sha256_file os path; ok (some live)

  -- `_check_subject`
  unfoldable pub check_subject : Predicate → Option String → Option Bytes → Outcome (Bool × String)
  unfolding compare_digest live_digest
  check_subject predicate subject_path subject_bytes = do
    live ← live_digest subject_path subject_bytes
    ok (compare_digest predicate live)

  -- `_verify_signature_local`
  unfoldable pub verify_signature_local : Envelope → SignatureVerifier → Outcome SignatureCheck
  unfolding try_signatures
  verify_signature_local env verifier =
      try_signatures verifier (pae (os.encode_utf8 env.payload_type) env.payload) "no signatures"
        env.signatures

  -- The rest of `verify_local_seal`, for a predicate that was read from an envelope.
  pub verify_predicate :
      Envelope
      → Predicate
      → SignatureVerifier
      → Option String
      → Option Bytes
      → Option ReExecutor
      → Option ReportLoader
      → Outcome VerificationReport
  verify_predicate env predicate verifier subject_path subject_bytes reexecutor loader = do
    subject ← check_subject predicate subject_path subject_bytes
    sig ← verify_signature_local env verifier
    entries ←
        verify_entries os predicate reexecutor loader (attested sig.identity)
          (subject.0 && sig.valid)
    ok (local_report subject sig entries)

  unfoldable pub verify_local_seal :
      String
      → SignatureVerifier
      → Option String
      → Option Bytes
      → Option ReExecutor
      → Option ReportLoader
      → Outcome VerificationReport
  unfolding verify_predicate
  verify_local_seal seal_path verifier subject_path subject_bytes reexecutor loader = do
    env ← load_envelope seal_path
    predicate ← predicate_from_envelope env
    verify_predicate env predicate verifier subject_path subject_bytes reexecutor loader

-- ===== src/Seal.antt =====
-- seal.py: from stored checks to a signed seal.
pub mod Laws
pub mod Verifies
use checkseal.Common.{
  String, Bool, true, false, not, ◌&&◌, List, [], ◌∷◌, Option, none, some, is_empty, if◌then◌else◌,
}
use checkseal.Common.Outcome.{Outcome, ok, raise, vcr_error, ◌>>=◌, ◌>>◌, require}
use checkseal.Json.{Json}
use checkseal.Model.Subject.{Subject}
use checkseal.Model.CheckEntry.{CheckEntry}
use checkseal.Model.Predicate.{Predicate, vcr_version_0_2}
use checkseal.Statement.{build_statement}
use checkseal.Profile.{validate_n1_profile}
use checkseal.AgentTooling.{is_agent_tooling_subject, validate_agent_tooling_profile}
use checkseal.Platform.{Platform, Bytes}
use checkseal.Digest.{canonical_bytes}
use checkseal.Sign.{SigningTier, is_t2, Signer}
use checkseal.Dsse.{envelope_to_jsonable, Envelope, payload_type_in_toto}
use checkseal.Dsse.Pae.{pae}

-- What `assemble` asks of a `SealStore`: `read_for_subject`, which may raise.
abbrev pub SubjectReader : Type 0
SubjectReader = String → Outcome (List CheckEntry)

-- `assemble`; the version is the default of the class.
unfoldable pub assemble : SubjectReader → Subject → Outcome Predicate
assemble read_for_subject subject = do
  entries ← read_for_subject subject.digest
  require (not (is_empty entries)) "no stored check-results for subject digest"
  ok (record { subject = subject; checks = entries; vcr_version = vcr_version_0_2 })

pub record Seal : Type 0 where
  pub tier : SigningTier
  pub statement : Json
  pub envelope : Option Envelope
  pub bundle_json : Option String

validate_tooling : Bool → Predicate → Outcome (Unit {0})
validate_tooling is_public predicate =
    if is_agent_tooling_subject predicate.subject.kind predicate.subject.media_type
    then validate_agent_tooling_profile is_public predicate
    else ok tt

-- The profiles that a predicate must satisfy before it is signed.
unfoldable pub validate_profiles : Bool → Predicate → Outcome (Unit {0})
unfolding validate_tooling
validate_profiles is_public predicate = do
  validate_n1_profile is_public predicate
  validate_tooling is_public predicate

-- `sign_statement_keyless`: a Statement and perhaps a token give a Sigstore bundle.
abbrev pub KeylessSigner : Type 0
KeylessSigner = Json → Option String → Outcome String

module _ (os : Platform) where
  -- statement.py `statement_bytes`
  unfoldable pub statement_bytes : Predicate → Bytes
  statement_bytes predicate = canonical_bytes os (build_statement predicate)

  -- `_pae`
  unfoldable pub signing_bytes : Bytes → Bytes
  signing_bytes payload = pae (os.encode_utf8 payload_type_in_toto) payload

  unfoldable pub sign_local : Predicate → Signer → Bool → Outcome Seal
  sign_local predicate signer is_public = do
    validate_profiles is_public predicate
    require (not (is_public && not (is_t2 signer.tier))) "public N1 seals must be T2 keyless"
    sig ← signer.sign (signing_bytes (statement_bytes predicate))
    ok (record {
      tier = signer.tier;
      statement = build_statement predicate;
      envelope = some (record {
        payload = statement_bytes predicate;
        payload_type = payload_type_in_toto;
        signatures = sig ∷ [];
      });
      bundle_json = none;
    })

  -- `Seal.to_intoto_jsonl`
  unfoldable pub to_intoto_jsonl : Seal → Outcome String
  to_intoto_jsonl seal = elim seal.envelope [
    | none ↦ raise (vcr_error "this seal has no DSSE envelope")
    | some env ↦ ok (os.dump_ascii (envelope_to_jsonable os env))
  ]

  -- `sign_keyless`
  unfoldable pub sign_keyless : KeylessSigner → Predicate → Option String → Outcome Seal
  sign_keyless sign_statement predicate identity_token = do
    validate_profiles true predicate
    bundle ← sign_statement (build_statement predicate) identity_token
    ok (record {
      tier = SigningTier.t2;
      statement = build_statement predicate;
      envelope = none;
      bundle_json = some bundle;
    })

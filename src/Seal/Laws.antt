-- ===== src/Seal/Laws.antt =====
-- A seal that over-claims cannot be minted.
use checkseal.Common.{
  Bool, true, false, ◌≡◌, ◌≢◌, [], ◌∷◌, none, some, is_empty, arith, All, ap, sym, ◌∙◌,
}
use checkseal.Common.Outcome.{ok}
use checkseal.Model.Predicate.{Predicate, IsWellFormed}
use checkseal.Statement.{build_statement, parse_statement}
use checkseal.Statement.Laws.{parse_statement-build_statement}
use checkseal.Profile.Laws.{Conforms, validate_n1_profile_iff}
use checkseal.AgentTooling.{is_agent_tooling_subject, is_subject_kind}
use checkseal.AgentTooling.Laws.{IsScanCheck, validate_agent_tooling_profile_iff}
use checkseal.Platform.{Platform}
use checkseal.Sign.{SigningTier, Signature, Signer}
use checkseal.Dsse.{payload_type_in_toto}
use checkseal.Seal.{Seal, validate_profiles, statement_bytes, signing_bytes, sign_local}

-- What a predicate satisfies that the sealer signs.
pub record IsSealable (is_public : Bool) (p : Predicate) : Type 0 where
  pub some_check : is_empty p.checks ≡ false
  pub conforms : All (Conforms is_public) p.checks
  pub tooling :
      is_agent_tooling_subject p.subject.kind p.subject.media_type ≡ true
      → (is_subject_kind p.subject.kind ≡ true)
        × (p.subject.media_type ≢ none)
        × All IsScanCheck p.checks

validate_profiles-IsSealable :
    (is_public : Bool) (p : Predicate)
    → validate_profiles is_public p ≡ ok tt
    → IsSealable is_public p
unfolding validate_profiles
validate_profiles-IsSealable is_public p h =
    let (some_check, conforms) = (validate_n1_profile_iff is_public p).0 (ground arith) in
    record {
      some_check = some_check;
      conforms = conforms;
      tooling = λ kind.
          let (k, m, c, s) = (validate_agent_tooling_profile_iff is_public p).0 (ground arith) in
          (k, m, s);
    }

-- A minted seal.
pub record IsMinted (os : Platform) (p : Predicate) (signer : Signer) (is_public : Bool)
    (seal : Seal) : Type 0 where
  pub sealable : IsSealable is_public p
  pub public_tier : is_public ≡ true → signer.tier ≡ SigningTier.t2
  pub sig : Signature
  pub signed : signer.sign (signing_bytes os (statement_bytes os p)) ≡ ok sig
  pub envelope :
      seal.envelope
      ≡ some (record {
        payload = statement_bytes os p;
        payload_type = payload_type_in_toto;
        signatures = sig ∷ [];
      })
  pub tier : seal.tier ≡ signer.tier
  pub parses : parse_statement seal.statement ≡ ok p

module _ (os : Platform) (p : Predicate) (signer : Signer) (is_public : Bool) {seal : Seal} where
  sign_local-validated :
      sign_local os p signer is_public ≡ ok seal → validate_profiles is_public p ≡ ok tt
  unfolding sign_local
  sign_local-validated h = ground arith

  sign_local-public_tier :
      sign_local os p signer is_public ≡ ok seal → is_public ≡ true → signer.tier ≡ SigningTier.t2
  unfolding sign_local
  sign_local-public_tier h k = ground arith

  sign_local-signed :
      sign_local os p signer is_public ≡ ok seal
      → (sig : Signature) × (signer.sign (signing_bytes os (statement_bytes os p)) ≡ ok sig)
        × (record {
          tier = signer.tier;
          statement = build_statement p;
          envelope = some (record {
            payload = statement_bytes os p;
            payload_type = payload_type_in_toto;
            signatures = sig ∷ [];
          });
          bundle_json = none;
        }
            ≡ seal)
  unfolding sign_local
  sign_local-signed h = ground arith

-- A seal minted for a well-formed predicate has checks that all conform to the N1 profile, and to the
-- agent-tooling profile where the subject calls for it; a public one has a signer of tier T2. Its
-- envelope carries one signature, over the encoding of the canonical bytes of the Statement, and
-- its Statement is read back as the predicate.
pub sign_local-IsMinted :
    (os : Platform) (p : Predicate) (signer : Signer) (is_public : Bool) {seal : Seal}
    → IsWellFormed p
    → sign_local os p signer is_public ≡ ok seal
    → IsMinted os p signer is_public seal
sign_local-IsMinted os p signer is_public {seal} well_formed h =
    let (sig, signed, e) = sign_local-signed os p signer is_public h in
    record {
      sealable =
          validate_profiles-IsSealable is_public p (sign_local-validated os p signer is_public h);
      public_tier = sign_local-public_tier os p signer is_public h;
      sig = sig;
      signed = signed;
      envelope = ap (λ (s : Seal). s.envelope) (sym e);
      tier = ap (λ (s : Seal). s.tier) (sym e);
      parses =
          ap (λ (s : Seal). parse_statement s.statement) (sym e)
          ∙ parse_statement-build_statement p well_formed;
    }

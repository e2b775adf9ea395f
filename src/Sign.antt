-- ===== src/Sign.antt =====
-- sign/base.py: signing tiers, identities, and the two abstract classes as functions.
pub mod Local
pub mod KeyFile
pub mod Keyless
use checkseal.Common.{String, Bool, true, false, Option}
use checkseal.Common.Outcome.{Outcome}
use checkseal.Platform.{Bytes}

pub data SigningTier : Type 0 where
  t0 t1 t2 : SigningTier

-- `tier.value`
abbrev pub tier_value : SigningTier → String
tier_value SigningTier.t0 = "T0"
tier_value SigningTier.t1 = "T1"
tier_value SigningTier.t2 = "T2"

abbrev pub is_t2 : SigningTier → Bool
is_t2 SigningTier.t2 = true
is_t2 _ = false

-- dsse.py `Signature`
pub record Signature : Type 0 where
  pub sig : Bytes
  pub keyid : Option String
  pub cert : Option String

pub record Identity : Type 0 where
  pub tier : SigningTier
  pub subject : String
  pub issuer : Option String
  pub attested_authority : Bool

pub record Signer : Type 0 where
  pub tier : SigningTier
  pub sign : Bytes → Outcome Signature

-- `verify` raises on any failure.
abbrev pub SignatureVerifier : Type 0
SignatureVerifier = Bytes → Signature → Outcome Identity

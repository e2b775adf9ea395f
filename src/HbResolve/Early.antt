-- ===== src/HbResolve/Early.antt =====
-- `ProofResolution`, and early returns of one.
use checkseal.Common.{String, Bool, true, false, Option, none}
use checkseal.Json.{Float}

pub record ProofResolution : Type 0 where
  pub resolved : Bool
  pub reason : String
  pub corpus : Option String
  pub threat_class : Option String
  pub ees : Option Float
  pub strong_binding : Bool

-- `ProofResolution(False, reason)`
abbrev pub unresolved : String → ProofResolution
unresolved reason = record {
  resolved = false;
  reason = reason;
  corpus = none;
  threat_class = none;
  ees = none;
  strong_binding = false;
}

-- A function body: it goes on with a value, or has returned.
pub data Early {ℓ} (A : Type ℓ) : Type ℓ where
  go : A → Early A
  return : ProofResolution → Early A

-- Nothing runs after a return.
infixl 5 ◌>>=◌
abbrev pub ◌>>=◌ {ℓ κ} : {A : Type ℓ} {B : Type κ} → Early A → (A → Early B) → Early B
return r >>= after = return r
go x >>= after = after x

infixl 5 ◌>>◌
abbrev pub ◌>>◌ {ℓ} : {B : Type ℓ} → Early (Unit {0}) → Early B → Early B
statement >> after = statement >>= λ _. after

-- `if not test: return r`
abbrev pub check : Bool → ProofResolution → Early (Unit {0})
check true r = go tt
check false r = return r

abbrev pub check_some {ℓ} : {A : Type ℓ} → Option A → ProofResolution → Early A
check_some none r = return r
check_some (Option.some a) r = go a

abbrev pub returned : Early ProofResolution → ProofResolution
returned (go r) = r
returned (return r) = r

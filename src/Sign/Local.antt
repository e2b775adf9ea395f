-- ===== src/Sign/Local.antt =====
-- sign/local.py: T1 signing with an Ed25519 key. The `cryptography` package is a parameter.
use checkseal.Common.{
  String, ◌<>◌, Bool, true, false, Option, none, some, ◌≡◌, ◌≢◌, ap, sym, ◌↔◌, refl, arith, str_eq,
  eq_iff, ◌↔◌,
}
use checkseal.Common.Text.{take}
use checkseal.Common.Outcome.{Outcome, ok, raise, vcr_error, ◌>>=◌, ◌>>◌, require}
use checkseal.Platform.{Platform, Bytes}
use checkseal.Sign.{SigningTier, Signature, Identity, Signer, SignatureVerifier}

-- What the code uses of the package, which may be missing. A key that is not Ed25519 loads as `none`.
pub record Cryptography (PrivateKey PublicKey : Type 0) : Type 0 where
  pub installed : Bool
  pub public_key : PrivateKey → PublicKey
  -- `public.public_bytes(Encoding.Raw, PublicFormat.Raw)`
  pub raw_bytes : PublicKey → Bytes
  pub sign : PrivateKey → Bytes → Bytes
  -- `key.verify(sig, data)` does not raise `InvalidSignature`.
  pub accepts : PublicKey → Bytes → Bytes → Bool
  pub load_pem_private_key : Bytes → Outcome (Option PrivateKey)
  pub load_pem_public_key : Bytes → Outcome (Option PublicKey)

pub record LocalKeySigner (PrivateKey : Type 0) : Type 0 where
  pub key : PrivateKey
  pub keyid : String

pub record LocalKeyVerifier (PublicKey : Type 0) : Type 0 where
  pub key : PublicKey
  pub keyid : String

-- `sig.keyid is None or sig.keyid == keyid`
keyid_matches : Option String → String → Bool
keyid_matches none keyid = true
keyid_matches (some k) keyid = str_eq k keyid

keyid_matches_iff :
    (o : Option String) (keyid : String)
    → (keyid_matches o keyid ≡ true) ↔ (o ≢ none → o ≡ some keyid)
unfolding keyid_matches
keyid_matches_iff none keyid = (λ h n. absurd (n refl), λ h. refl)
keyid_matches_iff (some k) keyid =
    (λ h n. ground (arith, eq_iff k keyid), λ h. ground (arith, eq_iff k keyid, h (λ e. cc)))

module _ (os : Platform) {PrivateKey PublicKey : Type 0}
    (crypto : Cryptography PrivateKey PublicKey) where
  -- `_require_crypto`
  abbrev pub require_crypto : Outcome (Unit {0})
  require_crypto = require crypto.installed "T1 signing needs the 'cryptography' package"

  -- `_keyid`
  unfoldable pub keyid_of : PublicKey → String
  keyid_of public = "ed25519:" <> take 16 (os.sha256_hex (crypto.raw_bytes public))

  -- `LocalKeySigner(key)`
  unfoldable pub new_signer : PrivateKey → Outcome (LocalKeySigner PrivateKey)
  new_signer key = do
    require_crypto
    ok (record { key = key; keyid = keyid_of (crypto.public_key key) })

  -- `LocalKeyVerifier(key)`
  unfoldable pub new_verifier : PublicKey → Outcome (LocalKeyVerifier PublicKey)
  new_verifier key = do require_crypto; ok (record { key = key; keyid = keyid_of key })

  -- `LocalKeySigner.verifier`
  unfoldable pub verifier_of : LocalKeySigner PrivateKey → Outcome (LocalKeyVerifier PublicKey)
  unfolding new_verifier
  verifier_of signer = new_verifier (crypto.public_key signer.key)

  -- `LocalKeySigner.tier` and `LocalKeySigner.sign`
  unfoldable pub local_signer : LocalKeySigner PrivateKey → Signer
  local_signer signer = record {
    tier = SigningTier.t1;
    sign = λ signed.
        ok (record { sig = crypto.sign signer.key signed; keyid = some signer.keyid; cert = none });
  }

  -- `LocalKeyVerifier.verify`
  unfoldable pub local_verify : LocalKeyVerifier PublicKey → SignatureVerifier
  unfolding keyid_matches
  local_verify verifier signed sig = do
    require (keyid_matches sig.keyid verifier.keyid) "key id mismatch"
    require (crypto.accepts verifier.key sig.sig signed) "Ed25519 signature verification failed"
    ok (record {
      tier = SigningTier.t1;
      subject = verifier.keyid;
      issuer = none;
      attested_authority = false;
    })

  -- `load_private_signer`
  unfoldable pub load_private_signer : String → Outcome (LocalKeySigner PrivateKey)
  load_private_signer path = do
    require_crypto
    pem ← os.read_file path
    key ← crypto.load_pem_private_key pem
    elim key [
      | none ↦ raise (vcr_error "key file is not an Ed25519 private key")
      | some k ↦ new_signer k
    ]

  -- `load_public_verifier`
  unfoldable pub load_public_verifier : String → Outcome (LocalKeyVerifier PublicKey)
  load_public_verifier path = do
    require_crypto
    pem ← os.read_file path
    key ← crypto.load_pem_public_key pem
    elim key [
      | none ↦ raise (vcr_error "key file is not an Ed25519 public key")
      | some k ↦ new_verifier k
    ]

  -- The package accepts what it signed.
  abbrev pub AcceptsSigned : Type 0
  AcceptsSigned =
      (key : PrivateKey) (signed : Bytes)
      → crypto.accepts (crypto.public_key key) (crypto.sign key signed) signed ≡ true

  -- A verifier accepts exactly the signatures that name its key, or none, and that the package
  -- accepts for its key; it never attests an authority.
  pub local_verify_iff :
      (verifier : LocalKeyVerifier PublicKey) (signed : Bytes) (sig : Signature)
      (identity : Identity)
      → (local_verify verifier signed sig ≡ ok identity) ↔ (
          (sig.keyid ≢ none → sig.keyid ≡ some verifier.keyid)
          × (crypto.accepts verifier.key sig.sig signed ≡ true)
          × (identity ≡ record {
            tier = SigningTier.t1;
            subject = verifier.keyid;
            issuer = none;
            attested_authority = false;
          }))
  unfolding local_verify
  local_verify_iff verifier signed sig identity =
      let matches = keyid_matches_iff sig.keyid verifier.keyid in
      (
        λ h. (matches.0 (ground arith), ground arith, ground arith),
        λ h. rw (matches.1 h.0, h.1, h.2) refl,
      )

  -- If the package accepts what it signed, the verifier of a signer accepts what the signer signs,
  -- as the signer's key.
  pub local_verify-sign :
      (signer : PrivateKey) (s : LocalKeySigner PrivateKey) (v : LocalKeyVerifier PublicKey)
      (signed : Bytes)
      → AcceptsSigned
      → new_signer signer ≡ ok s
      → verifier_of s ≡ ok v
      → (sig : Signature) × ((local_signer s).sign signed ≡ ok sig)
        × (local_verify v signed sig
            ≡ ok (record {
              tier = SigningTier.t1;
              subject = s.keyid;
              issuer = none;
              attested_authority = false;
            }))
  unfolding new_signer verifier_of local_signer
  local_verify-sign signer s v signed accepts h k =
      let key : s.key ≡ signer = ground arith in
      let keyid : s.keyid ≡ keyid_of (crypto.public_key signer) = ground arith in
      let v_key : v.key ≡ crypto.public_key s.key = ground arith in
      let v_keyid : v.keyid ≡ s.keyid = ground arith in
      let sig : Signature = record {
        sig = crypto.sign s.key signed;
        keyid = some s.keyid;
        cert = none;
      } in
      (
        sig,
        refl,
        (local_verify_iff v signed sig (record {
          tier = SigningTier.t1;
          subject = s.keyid;
          issuer = none;
          attested_authority = false;
        })).1
            ((λ _. ap some (sym v_keyid)), rw (v_key) (accepts s.key signed), rw (v_keyid) refl),
      )

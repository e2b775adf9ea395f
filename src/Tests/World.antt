-- ===== src/Tests/World.antt =====
-- An environment in which a predicate's seal reads back, and a signature scheme.
use checkseal.Common.{
  ℕ, ◌≡◌, refl, true, false, [], ◌∷◌, none, some, arith, str_eq, if◌then◌else◌, ◌==◌, String, Bool,
}
use checkseal.Common.Text.{strip, is_space}
use checkseal.Common.Outcome.{Outcome, ok}
use checkseal.Json.{Json, str, arr, obj, item, no_items, field, no_fields}
use checkseal.Json.Sorted.{sort_json, insert_sorted}
use checkseal.Model.Predicate.{Predicate}
use checkseal.Statement.{build_statement}
use checkseal.Platform.{Platform, Bytes}
use checkseal.Digest.{canonical_bytes}
use checkseal.Dsse.{envelope_to_jsonable}
use checkseal.Dsse.Pae.{pae}
use checkseal.Dsse.RoundTrip.{DecodesBase64}
use checkseal.Seal.{statement_bytes, signing_bytes}
use checkseal.Seal.Verifies.{signature_of}
use checkseal.Sign.Local.{
  Cryptography, LocalKeySigner, LocalKeyVerifier, AcceptsSigned, new_signer, verifier_of, keyid_of,
}
use checkseal.Verify.Local.Complete.{IsWritten, Decodes, minted}
use checkseal.Tests.EnvelopeTests.{coder, coder-DecodesBase64, write}

-- A number is a key, and stands in front of what it signs.
abbrev matches : ℕ → Bytes → Bool
matches key [] = false
matches key (b ∷ bs) = b == key

abbrev pub scheme : Cryptography ℕ ℕ
scheme = record {
  installed = true;
  public_key = λ key. key;
  raw_bytes = λ key. key ∷ [];
  sign = λ key signed. key ∷ signed;
  accepts = λ key sig signed. matches key sig;
  load_pem_private_key = λ _. ok (some 7);
  load_pem_public_key = λ _. ok (some 7);
}

abbrev pub keyid : String
keyid = "ed25519:0011223344556677"

abbrev pub seven : LocalKeySigner ℕ
seven = record { key = 7; keyid = keyid }

abbrev pub seven_verifier : LocalKeyVerifier ℕ
seven_verifier = record { key = 7; keyid = keyid }

-- The seal's JSON, its members sorted.
abbrev pub written_envelope : Json
written_envelope = obj (
    field "payload" (str (write (97 ∷ []))) (
      field "payloadType" (str "application/vnd.in-toto+json") (
        field "signatures"
          (arr (
            item
              (obj (
                field "keyid" (str keyid)
                  (field "sig" (str (write (7 ∷ pae (97 ∷ []) (97 ∷ [])))) no_fields)))
              no_items))
          no_fields)))

abbrev parsed : Predicate → Json → String → Outcome Json
parsed p record_json text =
    if str_eq text "statement"
    then ok (sort_json (build_statement p))
    else if str_eq text "envelope"
    then ok written_envelope
    else ok record_json

-- Bytes that begin with 98 are a receipt of one line.
abbrev decoded : Bytes → Outcome String
decoded [] = ok ""
decoded (b ∷ bs) = if b == 98 then ok "record" else ok "statement"

abbrev pub world : Predicate → Json → Platform
world p record_json = record coder { parse_json = parsed p record_json; decode_utf8 = decoded }

module _ (p : Predicate) (record_json : Json) where
  pub world-DecodesBase64 : DecodesBase64 (world p record_json)
  world-DecodesBase64 = coder-DecodesBase64

  pub world-Decodes : Decodes (world p record_json) p
  unfolding statement_bytes canonical_bytes
  world-Decodes = record { text = refl; parsed = refl }

  pub world-IsWritten :
      IsWritten
        (world p record_json)
        "seal"
        (minted (world p record_json) p (signature_of (world p record_json) scheme seven p))
  unfolding statement_bytes signing_bytes canonical_bytes envelope_to_jsonable strip is_space
      sort_json insert_sorted
  world-IsWritten = record { line = "envelope"; first_line = refl; stripped = refl; parsed = refl }

  pub world-new_signer : new_signer (world p record_json) scheme 7 ≡ ok seven
  unfolding new_signer keyid_of checkseal.Common.Text.take
  world-new_signer = refl

  pub world-verifier_of : verifier_of (world p record_json) scheme seven ≡ ok seven_verifier
  unfolding verifier_of keyid_of checkseal.Common.Text.take
  world-verifier_of = refl

  pub world-AcceptsSigned : AcceptsSigned (world p record_json) scheme
  world-AcceptsSigned key signed = ground arith

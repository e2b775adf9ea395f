-- ===== src/Dsse/RoundTrip.antt =====
-- An envelope is read back as it was written.
use checkseal.Common.{
  String, false, ◌≡◌, refl, List, [], ◌∷◌, map, is_empty, Option, none, some, All,
}
use checkseal.Common.Outcome.{ok, for_each}
use checkseal.Json.{as_dict, as_list, to_list-of_list, text_of, get_or, is_null}
use checkseal.Platform.{Platform, Bytes}
use checkseal.Sign.{Signature}
use checkseal.Dsse.{
  Envelope, signature_to_jsonable, signature_from_jsonable, envelope_to_jsonable,
  envelope_from_jsonable,
}

-- `base64` decodes what it encodes.
abbrev pub DecodesBase64 : Platform → Type 0
DecodesBase64 os = (b : Bytes) → os.decode_base64 (os.encode_base64 b) ≡ ok b

-- Every signature has bytes, as `from_jsonable` demands.
abbrev pub IsSigned : Signature → Type 0
IsSigned s = is_empty s.sig ≡ false

module _ (os : Platform) (base64 : DecodesBase64 os) where
  parts-round_trip :
      (b : Bytes) (keyid cert : Option String)
      → is_empty b ≡ false
      → signature_from_jsonable os
          (signature_to_jsonable os (record { sig = b; keyid = keyid; cert = cert }))
        ≡ ok (record { sig = b; keyid = keyid; cert = cert })
  unfolding signature_from_jsonable signature_to_jsonable as_dict text_of get_or is_null
  parts-round_trip b none none h = rw (base64 b, h) refl
  parts-round_trip b none (some c) h = rw (base64 b, h) refl
  parts-round_trip b (some k) none h = rw (base64 b, h) refl
  parts-round_trip b (some k) (some c) h = rw (base64 b, h) refl

  signatures-round_trip :
      (ss : List Signature)
      → All IsSigned ss
      → for_each (signature_from_jsonable os) (map (signature_to_jsonable os) ss) ≡ ok ss
  signatures-round_trip [] h = refl
  signatures-round_trip (s ∷ ss) h =
      rw (parts-round_trip s.sig s.keyid s.cert h.0, signatures-round_trip ss h.1) refl

  is_empty-map : (ss : List Signature) → is_empty (map (signature_to_jsonable os) ss) ≡ is_empty ss
  is_empty-map [] = refl
  is_empty-map (s ∷ ss) = refl

  -- If base64 decodes what it encodes, an envelope with a signature, and bytes in every signature, is
  -- read back from its JSON form unchanged.
  pub Envelope-round_trip :
      (env : Envelope)
      → is_empty env.signatures ≡ false
      → All IsSigned env.signatures
      → envelope_from_jsonable os (envelope_to_jsonable os env) ≡ ok env
  unfolding envelope_from_jsonable envelope_to_jsonable as_dict as_list text_of get_or
  Envelope-round_trip env some_sig signed =
      rw
        (
          base64 env.payload,
          to_list-of_list (map (signature_to_jsonable os) env.signatures),
          is_empty-map env.signatures,
          some_sig,
          signatures-round_trip env.signatures signed,
        )
        refl

-- ===== src/Dsse.antt =====
-- dsse.py: the signing envelope.
pub mod Pae
pub mod RoundTrip
pub mod Unordered
use checkseal.Common.{
  String, Bool, true, false, not, Option, none, some, List, [], ◌∷◌, is_empty, if◌then◌else◌, map,
}
use checkseal.Common.Outcome.{
  Outcome, Exn, ok, raise, vcr_error, value_error, json_decode_error, unicode_decode_error,
  other_error, key_error, index_error, os_error, runtime_error, ◌>>=◌, ◌>>◌, require, for_each,
}
use checkseal.Platform.{Platform, Bytes}
use checkseal.Sign.{Signature}
use checkseal.Json.{
  Json, null, str, get, get_or, as_dict, as_list, to_list, text_of, or_raise, is_null, Fields, obj,
  field, optional, arr, of_list, no_fields,
}

abbrev pub payload_type_in_toto : String
payload_type_in_toto = "application/vnd.in-toto+json"

pub record Envelope : Type 0 where
  pub payload : Bytes
  pub payload_type : String
  pub signatures : List Signature

-- `except (ValueError, TypeError)` around a base64 decode
rescue : String → Outcome Bytes → Outcome Bytes
rescue msg (ok b) = ok b
rescue msg (raise (other_error e)) = raise (other_error e)
rescue msg (raise os_error) = raise os_error
rescue msg (raise runtime_error) = raise runtime_error
rescue msg (raise key_error) = raise key_error
rescue msg (raise index_error) = raise index_error
rescue msg (raise _) = raise (vcr_error msg)

-- `v is None or isinstance(v, str)`
optional_text : Json → String → Outcome (Option String)
optional_text v msg = if is_null v then ok none else (do s ← or_raise (text_of v) msg; ok (some s))

-- Members one after the other.
abbrev extend : Fields → Fields → Fields
extend no_fields e = e
extend (field k v d) e = field k v (extend d e)

module _ (os : Platform) where
  -- A value that is no text raises `TypeError`, which becomes the same `VCRError`.
  decode_member : Json → String → Outcome Bytes
  unfolding rescue
  decode_member v msg = elim (text_of v) [
    | none ↦ raise (vcr_error msg)
    | some s ↦ rescue msg (os.decode_base64 s)
  ]

  unfoldable pub signature_to_jsonable : Signature → Json
  signature_to_jsonable s = obj (
      field "sig" (str (os.encode_base64 s.sig))
        (extend (optional "keyid" str s.keyid) (optional "cert" str s.cert)))

  unfoldable pub envelope_to_jsonable : Envelope → Json
  unfolding signature_to_jsonable
  envelope_to_jsonable env = obj (
      field "payload" (str (os.encode_base64 env.payload)) (
        field "payloadType" (str env.payload_type) (
          field "signatures" (arr (of_list (map signature_to_jsonable env.signatures))) no_fields)))

  unfoldable pub signature_from_jsonable : Json → Outcome Signature
  unfolding decode_member optional_text
  signature_from_jsonable v = do
    d ← as_dict v "signatures: object"
    sig ← decode_member (get_or (str "") "sig" d) "signatures.sig: not base64"
    require (not (is_empty sig)) "signatures.sig: empty"
    keyid ← optional_text (get "keyid" d) "signatures.keyid: must be a string"
    cert ← optional_text (get "cert" d) "signatures.cert: must be a string"
    ok (record { sig = sig; keyid = keyid; cert = cert })

  unfoldable pub envelope_from_jsonable : Json → Outcome Envelope
  unfolding signature_from_jsonable
  envelope_from_jsonable v = do
    d ← as_dict v "envelope: must be an object"
    payload_type ← or_raise (text_of (get "payloadType" d)) "envelope.payloadType: string"
    payload ← decode_member (get_or (str "") "payload" d) "envelope.payload: not valid base64"
    raw_sigs ← as_list (get "signatures" d) "envelope.signatures: non-empty list"
    require (not (is_empty (to_list raw_sigs))) "envelope.signatures: non-empty list"
    sigs ← for_each signature_from_jsonable (to_list raw_sigs)
    ok (record { payload = payload; payload_type = payload_type; signatures = sigs })

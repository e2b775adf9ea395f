-- ===== src/Dsse/Unordered.antt =====
-- An envelope is read alike whatever the order of the members in its JSON text.
use checkseal.Common.{
  String, Option, ◌≡◌, refl, ap, ◌∙◌, true, arith, List, [], ◌∷◌, map, is_empty, none, some,
}
use checkseal.Common.Outcome.{for_each}
use checkseal.Json.{Json, Fields, str, get_or, of_list, contains}
use checkseal.Json.Sorted.{sort_json, sort_fields}
use checkseal.Json.Sorted.Laws.{
  get_or-sort_fields, get-sort_fields, text_of-sort_json, is_null-sort_json, as_dict-sort_json,
  as_list-sort_json, to_list-sort_items,
}
use checkseal.JsonUtils.Laws.{all_distinct, items_distinct, has_distinct}
use checkseal.Platform.{Platform, Bytes}
use checkseal.Sign.{Signature}
use checkseal.Dsse.{
  Envelope, optional_text, decode_member, signature_to_jsonable, signature_from_jsonable,
  envelope_to_jsonable, envelope_from_jsonable,
}

optional_text-sort_json :
    (v : Json) (msg : String) → optional_text (sort_json v) msg ≡ optional_text v msg
unfolding optional_text
optional_text-sort_json v msg = rw (is_null-sort_json v, text_of-sort_json v) refl

is_empty-map : (vs : List Json) → is_empty (map sort_json vs) ≡ is_empty vs
is_empty-map [] = refl
is_empty-map (v ∷ vs) = refl

module _ (os : Platform) where
  decode_member-sort_json :
      (v : Json) (msg : String) → decode_member os (sort_json v) msg ≡ decode_member os v msg
  unfolding decode_member
  decode_member-sort_json v msg = rw (text_of-sort_json v, decode_member) refl

  member-sort_json :
      (k msg : String) (d : Fields)
      → decode_member os (get_or (str "") k (sort_fields d)) msg
        ≡ decode_member os (get_or (str "") k d) msg
  unfolding sort_json
  member-sort_json k msg d =
      ap (λ v. decode_member os v msg) (get_or-sort_fields (str "") k d)
      ∙ decode_member-sort_json (get_or (str "") k d) msg

  signature-sort_json :
      (v : Json) → signature_from_jsonable os (sort_json v) ≡ signature_from_jsonable os v
  unfolding signature_from_jsonable
  signature-sort_json v =
      simp (as_dict-sort_json, get-sort_fields, member-sort_json, optional_text-sort_json) refl

  signatures-sort_json :
      (vs : List Json)
      → for_each (signature_from_jsonable os) (map sort_json vs)
        ≡ for_each (signature_from_jsonable os) vs
  signatures-sort_json [] = refl
  signatures-sort_json (v ∷ vs) = rw (signature-sort_json v, signatures-sort_json vs) refl

  -- Sorting the members of an envelope, at any depth, does not change what it is read as.
  pub envelope-sort_json :
      (v : Json) → envelope_from_jsonable os (sort_json v) ≡ envelope_from_jsonable os v
  unfolding envelope_from_jsonable
  envelope-sort_json v =
      simp
        (
          as_dict-sort_json, as_list-sort_json, get-sort_fields, text_of-sort_json,
          member-sort_json, to_list-sort_items, is_empty-map, signatures-sort_json,
        )
        refl

  parts_distinct :
      (b : Bytes) (keyid cert : Option String)
      → all_distinct (signature_to_jsonable os (record { sig = b; keyid = keyid; cert = cert }))
        ≡ true
  unfolding signature_to_jsonable all_distinct has_distinct contains
  parts_distinct b none none = refl
  parts_distinct b none (some c) = refl
  parts_distinct b (some k) none = refl
  parts_distinct b (some k) (some c) = refl

  signatures_distinct :
      (ss : List Signature) → items_distinct (of_list (map (signature_to_jsonable os) ss)) ≡ true
  unfolding all_distinct
  signatures_distinct [] = refl
  signatures_distinct (s ∷ ss) =
      ground (arith, parts_distinct s.sig s.keyid s.cert, signatures_distinct ss)

  -- An envelope that is written names no member twice.
  pub envelope_distinct : (env : Envelope) → all_distinct (envelope_to_jsonable os env) ≡ true
  unfolding envelope_to_jsonable all_distinct has_distinct contains
  envelope_distinct env = ground (arith, signatures_distinct env.signatures)

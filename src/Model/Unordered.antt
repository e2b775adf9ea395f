-- ===== src/Model/Unordered.antt =====
-- Decoding a record does not depend on the order of the members in the JSON text.
use checkseal.Common.{ℕ, String, Option, ◌≡◌, refl}
use checkseal.Common.Outcome.{Outcome, for_each}
use checkseal.Common.Int.{pos}
use checkseal.Common.{none, List, [], ◌∷◌, map, is_empty}
use checkseal.Model.Runtime.{duration_field}
use checkseal.Model.Predicate.{vcr_version_0_2}
use checkseal.Json.{Json, Fields, str, int, get_or, unless_null}
use checkseal.Json.Sorted.{sort_json, sort_fields}
use checkseal.Json.Sorted.Laws.{
  get_or-sort_fields, get-sort_fields, contains-sort_fields, text_of-sort_json, is_null-sort_json,
  as_dict-sort_json, as_list-sort_json, to_list-sort_items,
}
use checkseal.Model.Fields.{sha256_field, str_field, parse_subject_kind}
use checkseal.Model.Digest.{digest_field}
use checkseal.Model.Subject
use checkseal.Model.Check
use checkseal.Model.Predicate
use checkseal.Model.CheckEntry
use checkseal.Model.Provenance
use checkseal.Model.Runtime
use checkseal.Model.Evidence
use checkseal.Model.Verdict
use checkseal.Model.EnforcedProof

str_field-sort_json :
    (m : Option ℕ) (v : Json) (ctx : String) → str_field m (sort_json v) ctx ≡ str_field m v ctx
unfolding str_field
str_field-sort_json m v ctx = rw (text_of-sort_json v) refl

sha256_field-sort_json :
    (v : Json) (ctx : String) → sha256_field (sort_json v) ctx ≡ sha256_field v ctx
unfolding sha256_field
sha256_field-sort_json v ctx = rw (text_of-sort_json v) refl

parse_subject_kind-sort_json : (v : Json) → parse_subject_kind (sort_json v) ≡ parse_subject_kind v
unfolding parse_subject_kind
parse_subject_kind-sort_json v = rw (str_field-sort_json) refl

ruleset sorting = (
  get-sort_fields, contains-sort_fields, text_of-sort_json, is_null-sort_json, as_dict-sort_json,
  as_list-sort_json, to_list-sort_items, str_field-sort_json, sha256_field-sort_json,
  parse_subject_kind-sort_json,
)

unless_null-sort_json {ℓ} :
    {A : Type ℓ} (f : Json → Outcome A) (v : Json)
    → ((w : Json) → f (sort_json w) ≡ f w)
    → unless_null f (sort_json v) ≡ unless_null f v
unfolding unless_null
unless_null-sort_json f v h = rw (is_null-sort_json v, h v) refl

digest_field-sort_json :
    (msg ctx : String) (v : Json) → digest_field msg ctx (sort_json v) ≡ digest_field msg ctx v
unfolding digest_field
digest_field-sort_json msg ctx v = simp sorting refl

-- The optional members.
optional_text-sort_json :
    (ctx : String) (v : Json)
    → unless_null (λ t. str_field none t ctx) (sort_json v)
      ≡ unless_null (λ t. str_field none t ctx) v
optional_text-sort_json ctx v =
    unless_null-sort_json (λ t. str_field none t ctx) v (λ w. str_field-sort_json none w ctx)

optional_digest-sort_json :
    (msg ctx : String) (v : Json)
    → unless_null (digest_field msg ctx) (sort_json v) ≡ unless_null (digest_field msg ctx) v
optional_digest-sort_json msg ctx v =
    unless_null-sort_json (digest_field msg ctx) v (digest_field-sort_json msg ctx)

duration_field-sort_json : (v : Json) → duration_field (sort_json v) ≡ duration_field v
unfolding duration_field sort_json
duration_field-sort_json (int (pos n)) = refl
duration_field-sort_json _ = refl

optional_duration-sort_json :
    (v : Json) → unless_null duration_field (sort_json v) ≡ unless_null duration_field v
optional_duration-sort_json v = unless_null-sort_json duration_field v duration_field-sort_json

pub Subject-sort_json : (v : Json) → Subject.from_jsonable (sort_json v) ≡ Subject.from_jsonable v
unfolding Subject.from_jsonable
Subject-sort_json v = simp (sorting, optional_text-sort_json) refl

Check-sort_json : (v : Json) → Check.from_jsonable (sort_json v) ≡ Check.from_jsonable v
unfolding Check.from_jsonable
Check-sort_json v = simp (sorting, optional_digest-sort_json) refl

EnforcedProof-sort_json :
    (v : Json) → EnforcedProof.from_jsonable (sort_json v) ≡ EnforcedProof.from_jsonable v
unfolding EnforcedProof.from_jsonable
EnforcedProof-sort_json v = simp sorting refl

optional_proof-sort_json :
    (v : Json)
    → unless_null EnforcedProof.from_jsonable (sort_json v)
      ≡ unless_null EnforcedProof.from_jsonable v
optional_proof-sort_json v =
    unless_null-sort_json EnforcedProof.from_jsonable v EnforcedProof-sort_json

Verdict-sort_json : (v : Json) → Verdict.from_jsonable (sort_json v) ≡ Verdict.from_jsonable v
unfolding Verdict.from_jsonable
Verdict-sort_json v = simp (sorting, optional_proof-sort_json) refl

Evidence-sort_json : (v : Json) → Evidence.from_jsonable (sort_json v) ≡ Evidence.from_jsonable v
unfolding Evidence.from_jsonable
Evidence-sort_json v = simp (sorting, optional_text-sort_json) refl

Runtime-sort_json : (v : Json) → Runtime.from_jsonable (sort_json v) ≡ Runtime.from_jsonable v
unfolding Runtime.from_jsonable
Runtime-sort_json v = simp (sorting, optional_duration-sort_json, optional_digest-sort_json) refl

Provenance-sort_json :
    (v : Json) → Provenance.from_jsonable (sort_json v) ≡ Provenance.from_jsonable v
unfolding Provenance.from_jsonable
Provenance-sort_json v = simp sorting refl

-- The members of a check entry.
pub CheckEntry-sort_json :
    (v : Json) → CheckEntry.from_jsonable (sort_json v) ≡ CheckEntry.from_jsonable v
unfolding CheckEntry.from_jsonable
CheckEntry-sort_json v =
    simp
      (
        sorting, Check-sort_json, Verdict-sort_json, Evidence-sort_json, Runtime-sort_json,
        Provenance-sort_json,
      )
      refl

entries-sort_json :
    (vs : List Json)
    → for_each CheckEntry.from_jsonable (map sort_json vs) ≡ for_each CheckEntry.from_jsonable vs
entries-sort_json [] = refl
entries-sort_json (v ∷ vs) = rw (CheckEntry-sort_json v, entries-sort_json vs) refl

is_empty-map : (vs : List Json) → is_empty (map sort_json vs) ≡ is_empty vs
is_empty-map [] = refl
is_empty-map (v ∷ vs) = refl

version-sort_json :
    (d : Fields)
    → get_or (str vcr_version_0_2) "vcr_version" (sort_fields d)
      ≡ sort_json (get_or (str vcr_version_0_2) "vcr_version" d)
unfolding sort_json
version-sort_json d = get_or-sort_fields (str vcr_version_0_2) "vcr_version" d

-- A predicate is decoded alike whatever the order of the members, in it and in all parts of it.
pub Predicate-sort_json :
    (v : Json) → Predicate.from_jsonable (sort_json v) ≡ Predicate.from_jsonable v
unfolding Predicate.from_jsonable
Predicate-sort_json v =
    simp (sorting, version-sort_json, is_empty-map, Subject-sort_json, entries-sort_json) refl

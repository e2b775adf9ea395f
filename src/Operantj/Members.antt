-- ===== src/Operantj/Members.antt =====
-- What the model reads of the members that the translation of a record makes.
use checkseal.Common.{
  Bool-cases, ◌<>◌, ap, sym, ◌∙◌, true, ◌≡◌, refl, arith, ◌⊎◌, inl, inr, none, some, String, Option,
}
use checkseal.Common.Outcome.{ok, ◌>>=◌, >>=-eq-ok}
use checkseal.Json.{
  Json, Fields, field, no_fields, str, get, get_or, as_dict, is_null, text_of, unless_null,
  contains,
}
use checkseal.Model.Enums.{
  CheckKind, Enforced, EvidenceKind, Grade, Authority, Runner, value, result_enum, of_value,
  of_value-value, check_kind_enum, enforced_enum, evidence_kind_enum, grade_enum, authority_enum,
  runner_enum, find_member, Result,
}
use checkseal.Model.Fields.{
  is_sha256, sha256_field-str, str_field, str_field-str, within, str_field-eq, enum_field-eq,
}
use checkseal.Model.Digest.{digest_field-obj}
use checkseal.Model.Fields.{digest_obj}
use checkseal.Model.Check
use checkseal.Model.Verdict
use checkseal.Model.Evidence
use checkseal.Model.Runtime
use checkseal.Model.Provenance
use checkseal.Operantj.{
  bare_hex, digest_of_node, config_field, judge_check, judge_verdict, judge_evidence, judge_runtime,
  judge_provenance,
}

pub judge_check-eq :
    (check config : Fields) {c : Check.Check}
    → Check.from_jsonable (judge_check check config) ≡ ok c
    → (c.kind ≡ CheckKind.review)
      × (get "id" check ≡ str c.id)
      × (get "version" check ≡ str c.version)
unfolding Check.from_jsonable as_dict get_or of_value find_member
judge_check-eq check config {c} h = ground (
  arith,
  str_field-str none "review" "check.kind" (unfold within in refl),
  str_field-eq none (get "id" check) "check.id" {s = c.id},
  str_field-eq none (get "version" check) "check.version" {s = c.version},
)

pub judge_verdict-eq :
    (verdict : Fields) {v : Verdict.Verdict}
    → Verdict.from_jsonable (judge_verdict verdict) ≡ ok v
    → (v.enforced ≡ Enforced.observed)
      × (v.enforced_proof ≡ none)
      × (get "result" verdict ≡ str (value v.result))
unfolding Verdict.from_jsonable as_dict get_or unless_null is_null
judge_verdict-eq verdict {v} h =
    let (result, p, q) =
      enum_field-eq (get "result" verdict) "verdict.result"
        (λ (result : Result). do
          text ← str_field none (str "observed") "verdict.enforced"
          enforced ← of_value text
          ok (record { result = result; enforced = enforced; enforced_proof = none }))
        h in
    let observed = str_field-str none "observed" "verdict.enforced" (unfold within in refl) in
    ground (arith, observed, of_value-value Enforced.observed, p, q)

pub judge_evidence-eq :
    (hex : String) {e : Evidence.Evidence}
    → is_sha256 hex ≡ true
    → Evidence.from_jsonable (judge_evidence hex) ≡ ok e
    → (e.kind ≡ EvidenceKind.transcript_digest) × (e.grade ≡ Grade.grade_b) × (e.digest ≡ hex)
unfolding Evidence.from_jsonable as_dict contains get_or unless_null is_null str_field text_of
    within of_value find_member
judge_evidence-eq hex {e} p h = ground (arith, sha256_field-str hex "evidence.digest" p)

pub judge_runtime-eq :
    (runtime : Fields) (runner : Runner) {r : Runtime.Runtime}
    → Runtime.from_jsonable (judge_runtime runtime runner) ≡ ok r
    → (r.runner ≡ runner) × (get "ran_at" runtime ≡ str r.ran_at)
unfolding Runtime.from_jsonable as_dict get_or unless_null is_null within
judge_runtime-eq runtime runner {r} h = ground (
  arith,
  of_value-value runner,
  str_field-str none (value runner) "runtime.runner" refl,
  str_field-eq none (get "ran_at" runtime) "runtime.ran_at" {s = r.ran_at},
)

pub judge_provenance-eq :
    {p : Provenance.Provenance}
    → Provenance.from_jsonable judge_provenance ≡ ok p
    → p.authority ≡ Authority.agent
unfolding Provenance.from_jsonable as_dict get_or str_field text_of within of_value find_member
judge_provenance-eq {p} h = ground arith

pub bare_hex-IsSha256 :
    (v : Json) (ctx : String) {hex : String} → bare_hex v ctx ≡ ok hex → is_sha256 hex ≡ true
unfolding bare_hex
bare_hex-IsSha256 v ctx {hex} h = ground arith

pub digest_of_node-IsSha256 :
    (v : Json) (ctx : String) {hex : String} → digest_of_node v ctx ≡ ok hex → is_sha256 hex ≡ true
unfolding digest_of_node
digest_of_node-IsSha256 v ctx {hex} h =
    let (d, p, q) =
      >>=-eq-ok (as_dict v (ctx <> ": expected a digest object"))
        (λ d. bare_hex (get "sha256" d) ctx) h in
    bare_hex-IsSha256 (get "sha256" d) ctx q

-- The member that stands for a configuration.
abbrev pub config_fields : Option String → Fields
config_fields none = no_fields
config_fields (some hex) = field "config_ref" (digest_obj hex) no_fields

pub judge_check-none :
    (check : Fields) {c : Check.Check}
    → Check.from_jsonable (judge_check check no_fields) ≡ ok c
    → c.config_ref ≡ none
unfolding Check.from_jsonable as_dict get_or unless_null is_null
judge_check-none check {c} h = ground arith

pub judge_check-some :
    (check : Fields) (hex : String) {c : Check.Check}
    → is_sha256 hex ≡ true
    → Check.from_jsonable (judge_check check (config_fields (some hex))) ≡ ok c
    → c.config_ref ≡ some hex
unfolding Check.from_jsonable as_dict get_or unless_null is_null
judge_check-some check hex {c} p h =
    ground (arith, digest_field-obj hex "check.config_ref: must be an object" "check.config_ref" p)

pub config_field-cases :
    (v : Json) {config : Fields}
    → config_field v ≡ ok config
    → (config ≡ no_fields)
      ⊎ ((hex : String) × (is_sha256 hex ≡ true) × (config ≡ config_fields (some hex)))
unfolding config_field
config_field-cases v {config} h = elim (Bool-cases (is_null v)) [
  | inl absent ↦ inl (ground arith)
  | inr present ↦
      let (d, a, b) =
        >>=-eq-ok (as_dict v "check.config_ref: expected a digest object") _ (rw (present) at h) in
      let (hex, e, f) =
        >>=-eq-ok (bare_hex (get "sha256" d) "check.config_ref")
          (λ hex. ok (config_fields (some hex))) b in
      inr (hex, bare_hex-IsSha256 (get "sha256" d) "check.config_ref" e, cc f)
]

pub judge_config-eq :
    (check : Fields) (v : Json) {config : Fields} {c : Check.Check}
    → config_field v ≡ ok config
    → Check.from_jsonable (judge_check check config) ≡ ok c
    → config_field v ≡ ok (config_fields c.config_ref)
judge_config-eq check v {config} {c} k h = elim (config_field-cases v {config = config} k) [
  | inl e ↦
      let none_made = judge_check-none check {c = c} (rw (e) at h) in
      k ∙ ap ok (e ∙ ap config_fields (sym none_made))
  | inr (hex, p, e) ↦
      let some_made = judge_check-some check hex {c = c} p (rw (e) at h) in
      k ∙ ap ok (e ∙ ap config_fields (sym some_made))
]

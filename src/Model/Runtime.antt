-- ===== src/Model/Runtime.antt =====
-- model.py `Runtime`
use checkseal.Common.{ℕ, String, ◌≡◌, refl, Option, none, some, arith}
use checkseal.Common.Int.{pos}
use checkseal.Common.Outcome.{Outcome, ok, raise, vcr_error, ◌>>=◌}
use checkseal.Json.{
  Json, int, str, obj, field, get, get_or, as_dict, optional, unless_null, is_null, Fields,
  unless_null-optional,
}
use checkseal.Model.Enums.{Runner, value, of_value, of_value-value, runner_enum}
use checkseal.Model.Fields.{within, str_field, str_field-str, digest_obj}
use checkseal.Model.Digest.{
  IsDigest?, digest_field, digest_field-obj, digest_field-IsDigest?, IsDigest?-some,
}

pub record Runtime : Type 0 where
  pub ran_at : String
  pub runner : Runner
  pub duration_ms : Option ℕ
  pub env_digest : Option String

abbrev of_nat : ℕ → Json
of_nat n = int (pos n)

-- The members that follow `ran_at` and `runner`: each optional, in this order.
abbrev timing : Option ℕ → Option String → Fields
timing none env = optional "env_digest" digest_obj env
timing (some n) env = field "duration_ms" (of_nat n) (optional "env_digest" digest_obj env)

unfoldable pub to_jsonable : Runtime → Json
to_jsonable r = obj (
    field "ran_at" (str r.ran_at)
      (field "runner" (str (value r.runner)) (timing r.duration_ms r.env_digest)))

-- `isinstance(dur, int) and not isinstance(dur, bool) and dur >= 0`
unfoldable pub duration_field : Json → Outcome ℕ
duration_field (int (pos n)) = ok n
duration_field _ = raise (vcr_error "runtime.duration_ms: non-negative int")

unfoldable pub from_jsonable : Json → Outcome Runtime
from_jsonable v = do
  d ← as_dict v "runtime: must be an object"
  duration_ms ← unless_null duration_field (get "duration_ms" d)
  env_digest ←
      unless_null (digest_field "runtime.env_digest: object" "runtime.env_digest")
        (get "env_digest" d)
  ran_at ← str_field none (get "ran_at" d) "runtime.ran_at"
  runner_text ← str_field none (get "runner" d) "runtime.runner"
  runner ← of_value runner_text
  ok (record {
    ran_at = ran_at;
    runner = runner;
    duration_ms = duration_ms;
    env_digest = env_digest;
  })

pub record IsWellFormed (r : Runtime) : Type 0 where
  pub env_digest : IsDigest? r.env_digest

get-duration_ms :
    (o : Option ℕ) (env : Option String)
    → unless_null duration_field (get "duration_ms" (timing o env)) ≡ ok o
unfolding unless_null is_null get_or duration_field
get-duration_ms none none = refl
get-duration_ms none (some s) = refl
get-duration_ms (some n) env = refl

get-env_digest :
    (o : Option ℕ) (env : Option String)
    → get "env_digest" (timing o env) ≡ get "env_digest" (optional "env_digest" digest_obj env)
unfolding get_or
get-env_digest none env = refl
get-env_digest (some n) env = refl

pub from_jsonable-to_jsonable :
    (r : Runtime) → IsWellFormed r → from_jsonable (to_jsonable r) ≡ ok r
unfolding from_jsonable to_jsonable as_dict get_or is_null within
from_jsonable-to_jsonable r h =
    rw
      (
        get-duration_ms r.duration_ms r.env_digest,
        get-env_digest r.duration_ms r.env_digest,
        unless_null-optional "env_digest" digest_obj
            (digest_field "runtime.env_digest: object" "runtime.env_digest") r.env_digest
            (λ a. refl)
            (λ a e. digest_field-obj a _ _ (IsDigest?-some r.env_digest a h.env_digest e)),
        str_field-str none r.ran_at "runtime.ran_at" refl,
        str_field-str none (value r.runner) "runtime.runner" refl,
        of_value-value r.runner,
      )
      refl

pub from_jsonable-IsWellFormed : (v : Json) {r : Runtime} → from_jsonable v ≡ ok r → IsWellFormed r
unfolding from_jsonable
from_jsonable-IsWellFormed v h = grind (arith, digest_field-IsDigest?)

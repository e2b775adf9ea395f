-- ===== src/Verify/Freshness.antt =====
-- verify.py `_freshness`: the age of the log entry against a requested bound. The OverflowError of an
-- `integratedTime` of 2^1024 or more, which no float holds, is not modelled.
use checkseal.Json.Convert.{int_of}
use checkseal.Common.{
  ℕ, zero, suc, ◌+◌, ◌*◌, String, Bool, true, false, ◌≡◌, refl, Option, none, some, leb, arith,
  if◌then◌else◌,
}
use checkseal.Common.Int.{ℤ, pos, negsuc}
use checkseal.Common.Outcome.{
  Outcome, ok, raise, type_error, key_error, index_error, other_error, os_error, runtime_error,
  ◌>>=◌,
}
use checkseal.Json.{Json, int, str, arr, obj, no_items, item, no_fields, get_or, fields_of}
use checkseal.JsonUtils.{plain_json}
use checkseal.Platform.{Platform}

-- A time since the epoch, in seconds: `ticks / (suc rate_pred)`.
pub record Moment : Type 0 where
  pub ticks : ℕ
  pub rate_pred : ℕ

-- `v.get(k, default)`, which only a dict has
member_of : Json → String → Json → Outcome Json
member_of default k v = elim (fields_of v) [
  | none ↦ raise (other_error "AttributeError")
  | some d ↦ ok (get_or default k d)
]

-- `v[0]`. A dict has no integer among its names.
first_of : Json → Outcome Json
first_of (arr no_items) = raise index_error
first_of (arr (item v vs)) = ok v
first_of (str s) = elim s [
  | String.[] ↦ raise index_error
  | String.◌∷◌ c t ↦ ok (str (String.◌∷◌ c String.[]))
]
first_of (obj d) = raise key_error
first_of _ = raise type_error

-- The statements under `try`.
unfoldable pub integrated_time : Platform → String → Outcome ℤ
unfolding member_of first_of
integrated_time os bundle_json = do
  bundle ← os.parse_json bundle_json
  material ← member_of (obj no_fields) "verificationMaterial" (plain_json bundle)
  tlog ← member_of (arr (item (obj no_fields) no_items)) "tlogEntries" material
  entry ← first_of tlog
  time ← member_of (int (pos 0)) "integratedTime" entry
  int_of os time

-- `current - integrated <= max_age_seconds`, without subtraction or division
unfoldable pub is_fresh : Moment → ℕ → ℤ → Bool
is_fresh current integrated (pos age) =
    leb current.ticks ((integrated + age) * suc current.rate_pred)
is_fresh current integrated (negsuc age) =
    leb (current.ticks + suc age * suc current.rate_pred) (integrated * suc current.rate_pred)

judge_age : Moment → ℕ → ℤ → Bool × String
judge_age current integrated max_age_seconds =
    if is_fresh current integrated max_age_seconds then (true, "fresh") else (false, "STALE")

-- The `except` clause names `JSONDecodeError`, `KeyError`, `IndexError`, `ValueError` and `TypeError`.
judge : Moment → ℤ → Outcome ℤ → Outcome (Bool × String)
unfolding judge_age is_fresh
judge current max_age_seconds (raise (other_error e)) = raise (other_error e)
judge current max_age_seconds (raise os_error) = raise os_error
judge current max_age_seconds (raise runtime_error) = raise runtime_error
judge current max_age_seconds (raise _) =
    ok (false, "freshness bound requested but Rekor integratedTime is unreadable (fail closed)")
judge current max_age_seconds (ok (pos (suc n))) = ok (judge_age current (suc n) max_age_seconds)
judge current max_age_seconds (ok _) =
    ok (false, "freshness bound requested but Rekor integratedTime is absent (fail closed)")

-- `current` is `now`, or else the clock.
unfoldable pub freshness : Platform → String → Option ℤ → Moment → Outcome (Bool × String)
unfolding judge
freshness os bundle_json none current =
    ok (true, "Rekor inclusion verified; no freshness bound requested")
freshness os bundle_json (some max_age_seconds) current =
    judge current max_age_seconds (integrated_time os bundle_json)

-- What a requested bound establishes: the log's time is there, is positive, and is recent enough.
abbrev pub IsFresh : Platform → String → Option ℤ → Moment → Type 0
IsFresh os bundle_json none current = Unit
IsFresh os bundle_json (some max_age_seconds) current =
    (n : ℕ) × (integrated_time os bundle_json ≡ ok (pos (suc n)))
    × (is_fresh current (suc n) max_age_seconds ≡ true)

judge-fresh :
    (current : Moment) (max_age_seconds : ℤ) (time : Outcome ℤ) {r : Bool × String}
    → judge current max_age_seconds time ≡ ok r
    → r.0 ≡ true
    → (n : ℕ) × (time ≡ ok (pos (suc n))) × (is_fresh current (suc n) max_age_seconds ≡ true)
unfolding judge
judge-fresh current m (ok (pos (suc n))) h t = (n, refl, ground arith)
judge-fresh current m (ok (pos zero)) h t = ground arith
judge-fresh current m (ok (negsuc n)) h t = ground arith
judge-fresh current m (raise x) h t = ground arith

pub freshness-IsFresh :
    (os : Platform) (bundle_json : String) (max_age_seconds : Option ℤ) (current : Moment)
    {r : Bool × String}
    → freshness os bundle_json max_age_seconds current ≡ ok r
    → r.0 ≡ true
    → IsFresh os bundle_json max_age_seconds current
unfolding freshness
freshness-IsFresh os b none current h t = tt
freshness-IsFresh os b (some m) current h t = judge-fresh current m (integrated_time os b) h t

-- ===== src/Model/Fields.antt =====
-- The field parsers of model.py: `_str`, `_sha256` and `parse_subject_kind`.
use checkseal.Common.{
  ℕ, String, ◌<>◌, Bool, true, Option, none, some, ◌≡◌, refl, ap, sym, ◌∙◌, arith, ◌&&◌, ◌==◌, leb,
}
use checkseal.Common.Text.{length, all_chars, strip, lower, is_hex, lower-strip-hex}
use checkseal.Common.Outcome.{Outcome, ok, raise, ◌>>=◌, ◌>>◌, require, >>=-eq-ok}
use checkseal.Json.{Json, str, field, no_fields, obj, text_of, or_raise}
use checkseal.Model.Enums.{StrEnum, SubjectKind, value, of_value, value-of_value, subject_kind_enum}

-- `len(v) == 64 and all(c in "0123456789abcdef" for c in v)`
unfoldable pub is_sha256 : String → Bool
unfolding length all_chars is_hex
is_sha256 s = length s == 64 && all_chars is_hex s

-- `_sha256`
unfoldable pub sha256_field : Json → String → Outcome String
sha256_field v ctx = do
  text ← or_raise (text_of v) (ctx <> ": sha256 must be a string")
  let hex = lower (strip text)
  require (is_sha256 hex) (ctx <> ": not a lowercase 64-hex sha256")
  ok hex

-- `_require(len(v) <= max_len, …)` where a bound is given
unfoldable pub within : Option ℕ → String → Bool
within none s = true
within (some max_len) s = leb (length s) max_len

-- `_str`
unfoldable pub str_field : Option ℕ → Json → String → Outcome String
str_field max_len v ctx = do
  text ← or_raise (text_of v) (ctx <> ": must be a string")
  require (within max_len text) (ctx <> ": exceeds the maximum")
  ok text

abbrev known_or : String → Outcome SubjectKind → String
known_or kind (ok k) = value k
known_or kind (raise _) = kind

unfoldable pub parse_subject_kind : Json → Outcome String
parse_subject_kind v = do kind ← str_field none v "subject.kind"; ok (known_or kind (of_value kind))

-- `{"sha256": digest}`
abbrev pub digest_obj : String → Json
digest_obj digest = obj (field "sha256" (str digest) no_fields)

-- A digest in normal form is read as it stands.
pub sha256_field-str : (s ctx : String) → is_sha256 s ≡ true → sha256_field (str s) ctx ≡ ok s
unfolding sha256_field text_of is_sha256
sha256_field-str s ctx h = ground (arith, lower-strip-hex s)

pub str_field-str :
    (max_len : Option ℕ) (s ctx : String)
    → within max_len s ≡ true
    → str_field max_len (str s) ctx ≡ ok s
unfolding str_field text_of
str_field-str max_len s ctx h = rw h

-- Whatever is read as a digest is in normal form.
pub sha256_field-IsSha256 :
    (v : Json) (ctx : String) {s : String} → sha256_field v ctx ≡ ok s → is_sha256 s ≡ true
unfolding sha256_field
sha256_field-IsSha256 v ctx h = ground arith

pub str_field-within :
    (max_len : Option ℕ) (v : Json) (ctx : String) {s : String}
    → str_field max_len v ctx ≡ ok s
    → within max_len s ≡ true
unfolding str_field
str_field-within max_len v ctx h = ground arith

-- A known kind is its enumeration value, an unknown one passes through: the text is kept.
pub parse_subject_kind-str : (s : String) → parse_subject_kind (str s) ≡ ok s
unfolding parse_subject_kind within
parse_subject_kind-str s =
    rw (str_field-str none s "subject.kind" refl) (known-or_self (of_value s) refl)
  where
    known-or_self : (o : Outcome SubjectKind) → of_value s ≡ o → ok (known_or s o) ≡ ok s
    known-or_self (ok k) e = ap ok (value-of_value s e)
    known-or_self (raise x) e = refl

-- What is read as a text is that text.
pub str_field-eq :
    (max_len : Option ℕ) (v : Json) (ctx : String) {s : String}
    → str_field max_len v ctx ≡ ok s
    → v ≡ str s
unfolding str_field text_of
str_field-eq max_len (str t) ctx {s} h = ground arith
str_field-eq max_len _ ctx {s} h = cc

-- An enumeration's member that is read from a text is the one that the text names.
pub enum_field-eq {ℓ κ} :
    {A : Type ℓ} ⦃e : StrEnum A⦄ {B : Type κ} (v : Json) (ctx : String) (after : A → Outcome B)
    {b : B}
    → (str_field none v ctx >>= λ text. of_value text >>= after) ≡ ok b
    → (a : A) × (v ≡ str (value a)) × (after a ≡ ok b)
enum_field-eq v ctx after h =
    let (text, p, q) = >>=-eq-ok (str_field none v ctx) (λ text. of_value text >>= after) h in
    let (a, r, s) = >>=-eq-ok (of_value text) after q in
    (a, str_field-eq none v ctx p ∙ ap str (sym (value-of_value text r)), s)

-- ===== src/Model/Digest.antt =====
-- Members of the form `{"sha256": …}`, which model.py reads in four places.
use checkseal.Common.{String, ◌≡◌, true, Option, none, some, arith}
use checkseal.Common.Outcome.{Outcome, ok, ◌>>=◌}
use checkseal.Json.{Json, get, get_or, as_dict, unless_null}
use checkseal.Model.Fields.{
  is_sha256, sha256_field, digest_obj, sha256_field-str, sha256_field-IsSha256,
}

-- A `{"sha256": …}` member, given the two contexts of its messages.
unfoldable pub digest_field : String → String → Json → Outcome String
digest_field object_message ctx v = do
  d ← as_dict v object_message
  sha256_field (get "sha256" d) ctx

-- A digest, where there is one, is in normal form.
abbrev pub IsDigest? : Option String → Type 0
IsDigest? none = Unit
IsDigest? (some s) = is_sha256 s ≡ true

pub digest_field-obj :
    (s object_message ctx : String)
    → is_sha256 s ≡ true
    → digest_field object_message ctx (digest_obj s) ≡ ok s
unfolding digest_field as_dict get_or
digest_field-obj s object_message ctx h = sha256_field-str s ctx h

pub digest_field-IsDigest? :
    (object_message ctx : String) (v : Json) {o : Option String}
    → unless_null (digest_field object_message ctx) v ≡ ok o
    → IsDigest? o
unfolding unless_null digest_field
digest_field-IsDigest? object_message ctx v {o = none} e = tt
digest_field-IsDigest? object_message ctx v {o = some s} e = grind (arith, sha256_field-IsSha256)

pub IsDigest?-some :
    (o : Option String) (s : String) → IsDigest? o → o ≡ some s → is_sha256 s ≡ true
IsDigest?-some none s h e = cc
IsDigest?-some (some t) s h e = ground arith

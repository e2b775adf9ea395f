-- ===== src/Bundle.antt =====
-- bundle.py: the identity of a directory or an archive. What the file system shows of a directory is a
-- parameter.
pub mod Listed
pub mod Laws
use checkseal.Common.{
  String, ◌<>◌, Bool, true, false, not, ◌&&◌, ◌||◌, List, [], ◌∷◌, str_eq, if◌then◌else◌,
}
use checkseal.Common.Outcome.{Outcome, ok, raise, vcr_error, os_error, ◌>>=◌, ◌>>◌, require}
use checkseal.Json.{Json, Fields, no_fields, field, obj, str, contains}
use checkseal.JsonUtils.{insert}
use checkseal.Platform.{Platform, Bytes}
use checkseal.Digest.{canonical_bytes}

-- A path below the root, relative to it.
pub record TreeEntry : Type 0 where
  pub parts : List String
  pub is_symlink : Bool
  pub is_file : Bool
  -- Its bytes, or what reading raises.
  pub read : Outcome Bytes

-- `p.name`
unfoldable pub name_of : List String → String
name_of [] = ""
name_of (part ∷ []) = part
name_of (part ∷ part' ∷ parts) = name_of (part' ∷ parts)

-- `rel.as_posix()`
unfoldable pub as_posix : List String → String
as_posix [] = "."
as_posix (part ∷ []) = part
as_posix (part ∷ part' ∷ parts) = part <> "/" <> as_posix (part' ∷ parts)

-- `any(part in _EXCLUDE_DIRS for part in rel.parts)`: true of whatever is named `.git` or
-- `__pycache__`, be it a directory, a file or a symlink, and of what lies below it.
unfoldable pub has_excluded_part : List String → Bool
has_excluded_part [] = false
has_excluded_part (part ∷ parts) =
    str_eq part ".git" || str_eq part "__pycache__" || has_excluded_part parts

-- `not p.is_file() or p.name in _EXCLUDE_NAMES`
unfoldable pub is_no_content : TreeEntry → Bool
unfolding name_of
is_no_content p = not p.is_file || str_eq (name_of p.parts) ".DS_Store"

-- `except OSError`
abbrev pub unreadable_as_vcr_error : Outcome Bytes → Outcome Bytes
unreadable_as_vcr_error (raise os_error) = raise (vcr_error "bundle file became unreadable")
unreadable_as_vcr_error other = other

abbrev pub has_fields : Fields → Bool
has_fields no_fields = false
has_fields (field _ _ _) = true

module _ (os : Platform) (nfc : String → String) where
  unfoldable pub key_of : TreeEntry → String
  key_of p = nfc (as_posix p.parts)

  -- A file whose path and name are not excluded.
  unfoldable pub add_file : Fields → TreeEntry → Outcome Fields
  add_file manifest p = do
    require (not (contains (key_of p) manifest))
        "bundle has two files whose paths NFC-normalize alike"
    content ← unreadable_as_vcr_error p.read
    ok (insert (key_of p) (str (os.sha256_hex content)) manifest)

  -- The body of the loop.
  unfoldable pub add_entry : Fields → TreeEntry → Outcome Fields
  unfolding has_excluded_part is_no_content
  add_entry manifest p =
      if has_excluded_part p.parts
      then ok manifest
      else if p.is_symlink
      then raise (vcr_error "bundle contains a symlink")
      else if is_no_content p
      then ok manifest
      else add_file manifest p

  unfoldable pub manifest_from : Fields → List TreeEntry → Outcome Fields
  manifest_from manifest [] = ok manifest
  manifest_from manifest (p ∷ ps) = do extended ← add_entry manifest p; manifest_from extended ps

  -- `canonical_manifest`, for the paths below the root in their order: the bytes and their digest.
  unfoldable pub canonical_manifest : List TreeEntry → Outcome (Bytes × String)
  canonical_manifest paths = do
    manifest ← manifest_from no_fields paths
    require (has_fields manifest) "bundle has no content files"
    ok (canonical_bytes os (obj manifest), os.sha256_hex (canonical_bytes os (obj manifest)))

-- ===== src/Bundle/Listed.antt =====
-- Where the names of a manifest come from.
use checkseal.Common.{
  String, true, false, ◌≡◌, refl, arith, List, [], ◌∷◌, str_eq, eq_iff, if◌then◌else◌, ◌⊎◌,
  Bool-cases, inl, inr, ◌||◌,
}
use checkseal.Common.Outcome.{ok, >>=-eq-ok}
use checkseal.Json.{Json, Fields, no_fields, field, str, get, get_or, contains}
use checkseal.JsonUtils.{insert}
use checkseal.Platform.{Platform}
use checkseal.Bundle.{
  TreeEntry, has_excluded_part, is_no_content, unreadable_as_vcr_error, key_of, add_file, add_entry,
  manifest_from,
}

pub true-false : true ≡ false → ⊥
true-false h = cc

pub get-insert :
    (j k : String) (v : Json) (d : Fields)
    → get j (insert k v d) ≡ (if str_eq k j then v else get j d)
unfolding get_or insert
get-insert j k v no_fields = refl
get-insert j k v (field i w d) =
    ground (arith, get-insert j k v d, eq_iff i k, eq_iff i j, eq_iff k j)

pub contains-insert :
    (j k : String) (v : Json) (d : Fields)
    → contains j (insert k v d) ≡ (str_eq k j || contains j d)
unfolding contains insert
contains-insert j k v no_fields = refl
contains-insert j k v (field i w d) =
    ground (arith, contains-insert j k v d, eq_iff i k, eq_iff i j, eq_iff k j)

module _ (os : Platform) (nfc : String → String) where
  -- A content file of a tree has the name, and no part of its path is excluded.
  abbrev pub IsListed : String → List TreeEntry → Type 0
  IsListed k [] = ⊥
  IsListed k (p ∷ ps) =
      ((has_excluded_part p.parts ≡ false) × (is_no_content p ≡ false) × (key_of os nfc p ≡ k))
      ⊎ IsListed k ps

  add_file-IsListed :
      (k : String) (manifest : Fields) (p : TreeEntry) {extended : Fields}
      → add_file os nfc manifest p ≡ ok extended
      → contains k extended ≡ true
      → (key_of os nfc p ≡ k) ⊎ (contains k manifest ≡ true)
  unfolding add_file
  add_file-IsListed k manifest p {extended} h c =
      let key = key_of os nfc p in
      let new : contains key manifest ≡ false = ground arith in
      let (content, a, b) =
        >>=-eq-ok (unreadable_as_vcr_error p.read)
          (λ content. ok (insert key (str (os.sha256_hex content)) manifest)) (rw (new) at h) in
      let e : extended ≡ insert key (str (os.sha256_hex content)) manifest = cc b in
      let either = contains-insert k key (str (os.sha256_hex content)) manifest in
      ground (arith, e, c, either, eq_iff key k)

  add_entry-IsListed :
      (k : String) (manifest : Fields) (p : TreeEntry) {extended : Fields}
      → add_entry os nfc manifest p ≡ ok extended
      → contains k extended ≡ true
      → IsListed k (p ∷ []) ⊎ (contains k manifest ≡ true)
  unfolding add_entry
  add_entry-IsListed k manifest p {extended} h c = elim (Bool-cases (has_excluded_part p.parts)) [
    | inl excluded ↦ inr (ground arith)
    | inr included ↦
        let plain : p.is_symlink ≡ false = ground arith in
        elim (Bool-cases (is_no_content p)) [
          | inl skipped ↦ inr (ground arith)
          | inr content ↦
              elim (add_file-IsListed k manifest p {extended = extended} (ground arith) c) [
                | inl same ↦ inl (inl (included, content, same))
                | inr old ↦ inr old
              ]
        ]
  ]

  -- Every name of a manifest is that of a content file, or was there before.
  pub manifest_from-IsListed :
      (k : String) (manifest : Fields) (ps : List TreeEntry) {extended : Fields}
      → manifest_from os nfc manifest ps ≡ ok extended
      → contains k extended ≡ true
      → IsListed k ps ⊎ (contains k manifest ≡ true)
  unfolding manifest_from
  manifest_from-IsListed k manifest [] {extended} h c = inr (ground arith)
  manifest_from-IsListed k manifest (p ∷ ps) {extended} h c =
      let (next, a, b) =
        >>=-eq-ok (add_entry os nfc manifest p) (λ next. manifest_from os nfc next ps) h in
      elim (manifest_from-IsListed k next ps b c) [
        | inl later ↦ inl (inr later)
        | inr before ↦ elim (add_entry-IsListed k manifest p a before) [
          | inl (inl now) ↦ inl (inl now)
          | inl (inr none) ↦ absurd none
          | inr old ↦ inr old
        ]
      ]

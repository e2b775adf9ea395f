-- ===== src/Bundle/Laws.antt =====
-- What the manifest of a directory covers.
use text.Mathlib.TextPositions.{eq_refl}
use checkseal.Common.{
  String, true, false, ◌≡◌, refl, ap, sym, ◌∙◌, arith, List, [], ◌∷◌, All, eq_iff, Bool-cases, inl,
  inr,
}
use checkseal.Common.Outcome.{ok, ◌>>=◌, >>=-eq-ok, require}
use checkseal.Json.{Fields, no_fields, obj, str, get, contains}
use checkseal.JsonUtils.{insert}
use checkseal.Platform.{Platform, Bytes}
use checkseal.Digest.{canonical_bytes}
use checkseal.Bundle.Listed.{
  true-false, get-insert, contains-insert, IsListed, manifest_from-IsListed,
}
use checkseal.Bundle.{
  TreeEntry, has_excluded_part, is_no_content, unreadable_as_vcr_error, key_of, add_file, add_entry,
  manifest_from, has_fields, canonical_manifest,
}

module _ (os : Platform) (nfc : String → String) where
  -- The manifest says of a path what is to be said: unless a part of it is excluded, it is no symlink,
  -- and if it is a content file, its name stands for the digest of its bytes.
  pub record IsCovered (manifest : Fields) (p : TreeEntry) : Type 0 where
    pub no_symlink : has_excluded_part p.parts ≡ false → p.is_symlink ≡ false
    pub listed :
        has_excluded_part p.parts ≡ false
        → is_no_content p ≡ false
        → (content : Bytes) × (p.read ≡ ok content)
          × (contains (key_of os nfc p) manifest ≡ true)
          × (get (key_of os nfc p) manifest ≡ str (os.sha256_hex content))

  -- What a step keeps.
  abbrev Keeps : Fields → Fields → Type 0
  Keeps before after =
      (k : String)
      → contains k before ≡ true
      → (contains k after ≡ true) × (get k after ≡ get k before)

  Keeps-trans : (a b c : Fields) → Keeps a b → Keeps b c → Keeps a c
  Keeps-trans a b c f g k h = let (p, q) = f k h in let (r, t) = g k p in (r, t ∙ q)

  add_file-IsCovered :
      (manifest : Fields) (p : TreeEntry) {extended : Fields}
      → add_file os nfc manifest p ≡ ok extended
      → ((content : Bytes) × (p.read ≡ ok content)
          × (contains (key_of os nfc p) extended ≡ true)
          × (get (key_of os nfc p) extended ≡ str (os.sha256_hex content)))
        × Keeps manifest extended
  unfolding add_file
  add_file-IsCovered manifest p {extended} h =
      let key = key_of os nfc p in
      let new : contains key manifest ≡ false = ground arith in
      let (content, a, b) =
        >>=-eq-ok (unreadable_as_vcr_error p.read)
          (λ content. ok (insert key (str (os.sha256_hex content)) manifest)) (rw (new) at h) in
      let e : extended ≡ insert key (str (os.sha256_hex content)) manifest = cc b in
      (
        (
          content,
          ground arith,
          rw (e) (
              contains-insert key key (str (os.sha256_hex content)) manifest
              ∙ ground (arith, eq_refl key)),
          rw (e)
              (get-insert key key (str (os.sha256_hex content)) manifest ∙ rw (eq_refl key) refl),
        ),
        λ k m. (
          rw (e) (contains-insert k key (str (os.sha256_hex content)) manifest ∙ ground arith),
          rw (e) (
              get-insert k key (str (os.sha256_hex content)) manifest
              ∙ ground (arith, eq_iff key k)),
        ),
      )

  add_entry-IsCovered :
      (manifest : Fields) (p : TreeEntry) {extended : Fields}
      → add_entry os nfc manifest p ≡ ok extended
      → IsCovered extended p × Keeps manifest extended
  unfolding add_entry
  add_entry-IsCovered manifest p {extended} h = elim (Bool-cases (has_excluded_part p.parts)) [
    | inl excluded ↦
        let e : extended ≡ manifest = ground arith in
        (
          record { no_symlink = λ n. cc; listed = λ n. absurd (true-false (sym excluded ∙ n)) },
          λ k m. (rw (e) m, rw (e) refl),
        )
    | inr included ↦
        let plain : p.is_symlink ≡ false = ground arith in
        elim (Bool-cases (is_no_content p)) [
          | inl skipped ↦
              let e : extended ≡ manifest = ground arith in
              (
                record {
                  no_symlink = λ _. plain;
                  listed = λ _ n. absurd (true-false (sym skipped ∙ n));
                },
                λ k m. (rw (e) m, rw (e) refl),
              )
          | inr content ↦
              let (a, b) = add_file-IsCovered manifest p {extended = extended} (ground arith) in
              (record { no_symlink = λ _. plain; listed = λ _ _. a }, b)
        ]
  ]

  IsCovered-Keeps :
      (before after : Fields) (p : TreeEntry)
      → Keeps before after
      → IsCovered before p
      → IsCovered after p
  IsCovered-Keeps before after p keeps h = record {
    no_symlink = h.no_symlink;
    listed = λ included is_content.
        let (content, r, c, g) = h.listed included is_content in
        let (c', g') = keeps (key_of os nfc p) c in (content, r, c', g' ∙ g);
  }

  manifest_from-IsCovered :
      (manifest : Fields) (ps : List TreeEntry) {extended : Fields}
      → manifest_from os nfc manifest ps ≡ ok extended
      → All (IsCovered extended) ps × Keeps manifest extended
  unfolding manifest_from
  manifest_from-IsCovered manifest [] {extended} h =
      let e : extended ≡ manifest = ground arith in (tt, λ k m. (rw (e) m, rw (e) refl))
  manifest_from-IsCovered manifest (p ∷ ps) {extended} h =
      let (next, a, b) =
        >>=-eq-ok (add_entry os nfc manifest p) (λ next. manifest_from os nfc next ps) h in
      let (covered, keeps) = add_entry-IsCovered manifest p a in
      let (rest, keeps') = manifest_from-IsCovered next ps b in
      (
        (IsCovered-Keeps next extended p keeps' covered, rest),
        Keeps-trans manifest next extended keeps keeps',
      )

  -- The identity of a directory is the digest of the canonical bytes of a manifest that covers the
  -- tree, but for what is or lies below anything named `.git` or `__pycache__`: no other path is a
  -- symlink, every content file among the others was read and its name stands for the digest of its
  -- bytes, every name is that of such a file, and there is at least one.
  pub canonical_manifest-IsCovered :
      (paths : List TreeEntry) {raw : Bytes} {hex : String}
      → canonical_manifest os nfc paths ≡ ok (raw, hex)
      → (manifest : Fields) × (raw ≡ canonical_bytes os (obj manifest))
        × (hex ≡ os.sha256_hex raw)
        × (has_fields manifest ≡ true)
        × All (IsCovered manifest) paths
        × ((k : String) → contains k manifest ≡ true → IsListed os nfc k paths)
  unfolding canonical_manifest contains
  canonical_manifest-IsCovered paths {raw} {hex} h =
      let (manifest, a, b) =
        >>=-eq-ok (manifest_from os nfc no_fields paths)
          (λ manifest. require (has_fields manifest) "bundle has no content files" >>= λ _.
            ok (
              canonical_bytes os (obj manifest),
              os.sha256_hex (canonical_bytes os (obj manifest)),
            ))
          h in
      let e : (canonical_bytes os (obj manifest), os.sha256_hex (canonical_bytes os (obj manifest)))
          ≡ (raw, hex) =
        ground arith in
      (
        manifest,
        sym (ap (λ (r : Bytes × String). r.0) e),
        ground (arith, e),
        ground arith,
        (manifest_from-IsCovered no_fields paths a).0,
        λ k c. elim (manifest_from-IsListed os nfc k no_fields paths a c) [
          | inl listed ↦ listed
          | inr old ↦ absurd (true-false (sym old))
        ],
      )

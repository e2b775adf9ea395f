-- ===== src/Verify/Local/Laws.antt =====
-- What a passing verification of a local seal means, from the file to the verdict.
use checkseal.Common.{
  String, Bool, true, false, ◌≡◌, ◌⊎◌, inl, inr, refl, ap, ◌∙◌, subst, List, [], ◌∷◌, map, Option,
  none, some, arith, All, all_of, is_empty, eq_iff, str_eq,
}
use checkseal.Common.Outcome.{ok, vcr_error, ◌>>=◌, require, for_each, >>=-eq-ok, Outcome-cases}
use checkseal.Model.Enums.{is_ok}
use checkseal.Model.CheckEntry.{CheckEntry}
use checkseal.Model.Predicate.{Predicate, IsWellFormed}
use checkseal.Statement.{parse_statement}
use checkseal.Statement.Laws.{parse_statement-IsCoupled}
use checkseal.JsonUtils.{loads_unique_json}
use checkseal.Platform.{Platform, Bytes}
use checkseal.Sign.{Signature, Identity, SignatureVerifier}
use checkseal.Dsse.{Envelope, payload_type_in_toto}
use checkseal.Dsse.Pae.{pae}
use checkseal.HbResolve.{ReportLoader}
use checkseal.Verify.Report.{EntryFinding}
use checkseal.Verify.Entries.{ReExecutor, verify_entry, verify_entries, profile_of, fail_finding}
use checkseal.Verify.Entries.Laws.{IsTrusted, verify_entry-IsTrusted}
use checkseal.Verify.Entries.Gating.{AllReport}
use checkseal.Verify.Local.{
  SignatureCheck, try_signatures, predicate_from_envelope, live_digest, check_subject,
  compare_digest, verify_signature_local,
}

module _ (verifier : SignatureVerifier) (signed : Bytes) where
  -- The verifier accepts one of the signatures.
  pub SomeVerifies : List Signature → Type 0
  SomeVerifies [] = ⊥
  SomeVerifies (sig ∷ sigs) =
      ((identity : Identity) × (verifier signed sig ≡ ok identity)) ⊎ SomeVerifies sigs

  try_signatures-SomeVerifies :
      (last_err : String) (sigs : List Signature) {c : SignatureCheck}
      → try_signatures verifier signed last_err sigs ≡ ok c
      → c.valid ≡ true
      → SomeVerifies sigs
  unfolding try_signatures SomeVerifies
  try_signatures-SomeVerifies last_err [] h v = ground arith
  try_signatures-SomeVerifies last_err (sig ∷ sigs) {c} h v =
      elim (Outcome-cases (verifier signed sig)) [
        | inl (identity, e) ↦ inl (identity, e)
        | inr (vcr_error msg, e) ↦
            inr (try_signatures-SomeVerifies msg sigs {c = c} (ground arith) v)
        | inr (x, e) ↦ ground arith
      ]

module _ (os : Platform) (r : Option ReExecutor) (l : Option ReportLoader) (att : Bool)
    (allow : Bool) where
  loop-IsTrusted :
      (es : List CheckEntry) {fs : List EntryFinding}
      → for_each (verify_entry os r l att allow) es ≡ ok fs
      → all_of (λ f. f.trusted) fs ≡ true
      → All (IsTrusted os r l) es
  loop-IsTrusted [] h t = tt
  loop-IsTrusted (e ∷ es) {fs} h t =
      let (f, p, q) =
        >>=-eq-ok (verify_entry os r l att allow e)
          (λ f. for_each (verify_entry os r l att allow) es >>= λ gs. ok (f ∷ gs)) h in
      let (gs, s, u) =
        >>=-eq-ok (for_each (verify_entry os r l att allow) es) (λ gs. ok (f ∷ gs)) q in
      let trusted : all_of (λ f. f.trusted) (f ∷ gs) ≡ true = ground arith in
      (
        (verify_entry-IsTrusted os r l att e allow p (ground arith)).1,
        loop-IsTrusted es s (ground arith),
      )

  failed-not_trusted :
      (es : List CheckEntry) (reason : String)
      → is_empty es ≡ false
      → all_of (λ f. f.trusted) (map (λ e. fail_finding e reason) es) ≡ true
      → ⊥
  unfolding fail_finding
  failed-not_trusted [] reason n h = cc
  failed-not_trusted (e ∷ es) reason n h = cc

  -- If every finding of a predicate with a check is trusted, every entry deserves it.
  pub verify_entries-IsTrusted :
      (p : Predicate) {fs : List EntryFinding}
      → is_empty p.checks ≡ false
      → verify_entries os p r l att allow ≡ ok fs
      → all_of (λ f. f.trusted) fs ≡ true
      → All (IsTrusted os r l) p.checks
  unfolding verify_entries
  verify_entries-IsTrusted p {fs} n h t = elim (Outcome-cases (profile_of p)) [
    | inl (_, e) ↦ loop-IsTrusted p.checks {fs = fs} (ground arith) t
    | inr (x, e) ↦ absurd (
        failed-not_trusted p.checks "agent-tooling profile violated" n (
          subst (λ gs. all_of (λ f. f.trusted) gs ≡ true) {x = fs}
            {y = map (λ e. fail_finding e "agent-tooling profile violated") p.checks} (ground arith)
            t))
  ]

  -- Trusted findings come only from a predicate that keeps the profile of its subject.
  pub verify_entries-profile :
      (p : Predicate) {fs : List EntryFinding}
      → is_empty p.checks ≡ false
      → verify_entries os p r l att allow ≡ ok fs
      → all_of (λ f. f.trusted) fs ≡ true
      → profile_of p ≡ ok tt
  unfolding verify_entries
  verify_entries-profile p {fs} n h t = elim (Outcome-cases (profile_of p)) [
    | inl (u, e) ↦ cc e
    | inr (x, e) ↦ absurd (
        failed-not_trusted p.checks "agent-tooling profile violated" n (
          subst (λ gs. all_of (λ f. f.trusted) gs ≡ true) {x = fs}
            {y = map (λ e. fail_finding e "agent-tooling profile violated") p.checks} (ground arith)
            t))
  ]

pub predicate_from_envelope-IsWellFormed :
    (os : Platform) (env : Envelope) {p : Predicate}
    → predicate_from_envelope os env ≡ ok p
    → IsWellFormed p
unfolding predicate_from_envelope
predicate_from_envelope-IsWellFormed os env h =
    let (_, _, h₁) =
      >>=-eq-ok
        (require (str_eq env.payload_type payload_type_in_toto) "unexpected DSSE payloadType")
        (λ _. os.decode_utf8 env.payload >>= λ text.
          loads_unique_json os text >>= λ v. parse_statement v)
        h in
    let (text, _, h₂) =
      >>=-eq-ok (os.decode_utf8 env.payload)
        (λ text. loads_unique_json os text >>= λ v. parse_statement v) h₁ in
    let (v, _, h₃) = >>=-eq-ok (loads_unique_json os text) (λ v. parse_statement v) h₂ in
    (parse_statement-IsCoupled v h₃).1

compare_digest-some :
    (p : Predicate) (live : Option String)
    → (compare_digest p live).0 ≡ true
    → live ≡ some p.subject.digest
unfolding compare_digest
compare_digest-some p none h = cc
compare_digest-some p (some d) h = ground (arith, eq_iff d p.subject.digest)

pub check_subject-bound :
    (os : Platform) (p : Predicate) (path : Option String) (b : Option Bytes) (c : Bool × String)
    → check_subject os p path b ≡ ok c
    → c.0 ≡ true
    → live_digest os path b ≡ ok (some p.subject.digest)
unfolding check_subject
check_subject-bound os p path b c h t =
    let (live, e, q) = >>=-eq-ok (live_digest os path b) (λ live. ok (compare_digest p live)) h in
    e ∙ ap ok (compare_digest-some p live (ground arith))

pub results-passed :
    (es : List CheckEntry) (fs : List EntryFinding)
    → AllReport es fs
    → all_of (λ f. f.result_ok) fs ≡ true
    → all_of (λ e. is_ok e.verdict.result) es ≡ true
results-passed [] [] a h = refl
results-passed (e ∷ es) (f ∷ fs) a h = ground (arith, results-passed es fs a.1)
results-passed [] (f ∷ fs) a h = absurd a
results-passed (e ∷ es) [] a h = absurd a

pub verify_signature_local-SomeVerifies :
    (os : Platform) (env : Envelope) (verifier : SignatureVerifier) {c : SignatureCheck}
    → verify_signature_local os env verifier ≡ ok c
    → c.valid ≡ true
    → SomeVerifies verifier (pae (os.encode_utf8 env.payload_type) env.payload) env.signatures
unfolding verify_signature_local
verify_signature_local-SomeVerifies os env verifier h v =
    try_signatures-SomeVerifies verifier (pae (os.encode_utf8 env.payload_type) env.payload)
      "no signatures" env.signatures h v

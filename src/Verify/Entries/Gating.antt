-- ===== src/Verify/Entries/Gating.antt =====
-- What the verifier leaves alone, and the shape of its findings.
use checkseal.Common.{
  inl, inr, subst, String, Bool, false, ◌≡◌, refl, ap, List, [], ◌∷◌, map, Option, arith, All,
}
use checkseal.Common.Outcome.{ok, ◌>>=◌, for_each, >>=-eq-ok, Outcome-cases}
use checkseal.Model.Enums.{result_enum, enforced_enum, value, is_ok}
use checkseal.Model.CheckEntry.{CheckEntry}
use checkseal.Model.Predicate.{Predicate}
use checkseal.Platform.{Platform}
use checkseal.HbResolve.{ReportLoader}
use checkseal.Verify.Report.{EntryFinding}
use checkseal.Verify.Entries.{
  ReExecutor, entry_finding, fail_finding, reexecution_step, proof_step, verify_entry,
  verify_entries, profile_of, after_profile, trust_floor, render_trust_floor,
}

module _ (os : Platform) (attested : Bool) where
  verify_entry-not_allowed :
      (r r' : Option ReExecutor) (l l' : Option ReportLoader) (entry : CheckEntry)
      → verify_entry os r l attested false entry ≡ verify_entry os r' l' attested false entry
  unfolding verify_entry reexecution_step proof_step
  verify_entry-not_allowed r r' l l' entry = ground arith

  entries-not_allowed :
      (r r' : Option ReExecutor) (l l' : Option ReportLoader) (es : List CheckEntry)
      → for_each (verify_entry os r l attested false) es
        ≡ for_each (verify_entry os r' l' attested false) es
  entries-not_allowed r r' l l' [] = refl
  entries-not_allowed r r' l l' (e ∷ es) =
      rw (verify_entry-not_allowed r r' l l' e, entries-not_allowed r r' l l' es) refl

  -- Unless external steps are allowed, the findings depend neither on the re-executor nor on the
  -- loader.
  pub verify_entries-not_allowed :
      (p : Predicate) (r r' : Option ReExecutor) (l l' : Option ReportLoader)
      → verify_entries os p r l attested false ≡ verify_entries os p r' l' attested false
  unfolding verify_entries
  verify_entries-not_allowed p r r' l l' =
      ap (after_profile (profile_of p) p) (entries-not_allowed r r' l l' p.checks)

failed-not_trusted :
    (es : List CheckEntry) (reason : String)
    → All (λ f. f.trusted ≡ false) (map (λ e. fail_finding e reason) es)
unfolding fail_finding
failed-not_trusted [] reason = tt
failed-not_trusted (e ∷ es) reason = (refl, failed-not_trusted es reason)

module _ (os : Platform) (r : Option ReExecutor) (l : Option ReportLoader) (attested : Bool) where
  verify_entry-untrusted :
      (e : CheckEntry) {f : EntryFinding}
      → verify_entry os r l attested false e ≡ ok f
      → f.trusted ≡ false
  unfolding verify_entry entry_finding fail_finding reexecution_step
  verify_entry-untrusted e {f} h = ground arith

  loop-untrusted :
      (es : List CheckEntry) {fs : List EntryFinding}
      → for_each (verify_entry os r l attested false) es ≡ ok fs
      → All (λ f. f.trusted ≡ false) fs
  loop-untrusted [] {fs} h = subst (All (λ f. f.trusted ≡ false)) {x = []} (cc h) tt
  loop-untrusted (e ∷ es) {fs} h =
      let (f, p, q) =
        >>=-eq-ok (verify_entry os r l attested false e)
          (λ f. for_each (verify_entry os r l attested false) es >>= λ gs. ok (f ∷ gs)) h in
      let (gs, s, t) =
        >>=-eq-ok (for_each (verify_entry os r l attested false) es) (λ gs. ok (f ∷ gs)) q in
      subst (All (λ f. f.trusted ≡ false)) {x = f ∷ gs} (cc t)
        (verify_entry-untrusted e p, loop-untrusted es s)

  -- Unless external steps are allowed, no finding is trusted.
  pub verify_entries-untrusted :
      (p : Predicate) {fs : List EntryFinding}
      → verify_entries os p r l attested false ≡ ok fs
      → All (λ f. f.trusted ≡ false) fs
  unfolding verify_entries
  verify_entries-untrusted p {fs} h = elim (Outcome-cases (profile_of p)) [
    | inl (_, e) ↦ loop-untrusted p.checks (ground arith)
    | inr (x, e) ↦
        subst (All (λ f. f.trusted ≡ false))
          {x = map (λ e. fail_finding e "agent-tooling profile violated") p.checks} (ground arith)
          (failed-not_trusted p.checks "agent-tooling profile violated")
  ]

-- What each finding says of its entry, in order: its id, verdict, floor and label, and whether the
-- result is a failure.
abbrev pub Reports : CheckEntry → EntryFinding → Type 0
Reports e f =
    (f.check_id ≡ e.check.id)
    × (f.result ≡ value e.verdict.result)
    × (f.enforced ≡ value e.verdict.enforced)
    × (f.trust_floor ≡ trust_floor e)
    × (f.trust_floor_label ≡ render_trust_floor e)
    × (f.result_ok ≡ is_ok e.verdict.result)

abbrev pub AllReport : List CheckEntry → List EntryFinding → Type 0
AllReport [] [] = Unit
AllReport (e ∷ es) (f ∷ fs) = Reports e f × AllReport es fs
AllReport _ _ = ⊥

failed-AllReport :
    (es : List CheckEntry) (reason : String) → AllReport es (map (λ e. fail_finding e reason) es)
unfolding fail_finding entry_finding
failed-AllReport [] reason = tt
failed-AllReport (e ∷ es) reason =
    ((refl, refl, refl, refl, refl, refl), failed-AllReport es reason)

module _ (os : Platform) (r : Option ReExecutor) (l : Option ReportLoader)
    (attested allow : Bool) where
  verify_entry-Reports :
      (e : CheckEntry) {f : EntryFinding}
      → verify_entry os r l attested allow e ≡ ok f
      → Reports e f
  unfolding verify_entry entry_finding fail_finding
  verify_entry-Reports e {f} h = ground arith

  loop-AllReport :
      (es : List CheckEntry) {fs : List EntryFinding}
      → for_each (verify_entry os r l attested allow) es ≡ ok fs
      → AllReport es fs
  loop-AllReport [] {fs} h = subst (AllReport []) {x = []} (cc h) tt
  loop-AllReport (e ∷ es) {fs} h =
      let (f, p, q) =
        >>=-eq-ok (verify_entry os r l attested allow e)
          (λ f. for_each (verify_entry os r l attested allow) es >>= λ gs. ok (f ∷ gs)) h in
      let (gs, s, t) =
        >>=-eq-ok (for_each (verify_entry os r l attested allow) es) (λ gs. ok (f ∷ gs)) q in
      subst (AllReport (e ∷ es)) {x = f ∷ gs} (cc t) (verify_entry-Reports e p, loop-AllReport es s)

  -- One finding for each check, in the order of the predicate, with its id, result, enforcement,
  -- trust floor, label and result flag, whatever was trusted.
  pub verify_entries-AllReport :
      (p : Predicate) {fs : List EntryFinding}
      → verify_entries os p r l attested allow ≡ ok fs
      → AllReport p.checks fs
  unfolding verify_entries
  verify_entries-AllReport p {fs} h = elim (Outcome-cases (profile_of p)) [
    | inl (_, e) ↦ loop-AllReport p.checks (ground arith)
    | inr (x, e) ↦
        subst (AllReport p.checks)
          {x = map (λ e. fail_finding e "agent-tooling profile violated") p.checks} (ground arith)
          (failed-AllReport p.checks "agent-tooling profile violated")
  ]

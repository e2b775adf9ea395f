-- ===== src/HbResolve/Resolved.antt =====
-- The security boundary: what `resolve_enforced_proof` requires before it says "resolved".
use Prim.Native.Char.{Char}
use checkseal.Common.{
  ℕ, ◌*◌, suc, ◌≤◌, String, Bool, true, false, ◌≡◌, refl, ap, Option, none, some, arith, str_eq,
  eq_iff, Option-cases, inl, inr, sym, subst, ◌∙◌,
}
use checkseal.Common.Int.{pos}
use checkseal.Common.Outcome.{ok}
use checkseal.Json.{Json, Float, finite, str, obj, Fields, get, fields_of, equals_text-true}
use checkseal.JsonUtils.{loads_bytes}
use checkseal.Platform.{Platform, Bytes}
use checkseal.Model.CheckEntry.{CheckEntry}
use checkseal.Model.EnforcedProof.{EnforcedProof}
use checkseal.HbResolve.{ReportLoader, resolve_enforced_proof}
use checkseal.HbResolve.Early.{ProofResolution, returned}
use checkseal.HbResolve.Report.{score_of, below_floor, binds, resolve_report, check_report}
use checkseal.HbResolve.Laws.{IsProof, check_report-IsProof}

module _ (os : Platform) (loader : ReportLoader) (entry : CheckEntry) (proof : EnforcedProof) where
  -- The bytes behind the proof's URI have the proof's digest, and are a report that measured the
  -- check's own configuration, enforced it, and scored at least one half.
  pub record IsResolved : Type 0 where
    pub raw : Bytes
    pub loaded : loader proof.uri ≡ ok raw
    pub digest : os.sha256_hex raw ≡ proof.sha256
    pub report : Fields
    pub decoded : loads_bytes os raw ≡ ok (obj report)
    pub is_proof : IsProof os.is_digit entry report
    pub ref : String
    pub config_ref : entry.check.config_ref ≡ some ref
    pub config_sha256 : get "config_sha256" report ≡ str ref
    pub numerator : ℕ
    pub denominator_pred : ℕ
    pub score : is_proof.ees ≡ finite (pos numerator) denominator_pred
    pub at_least_half : suc denominator_pred ≤ 2 * numerator
    pub at_most_one : numerator ≤ suc denominator_pred

binds-true :
    (v : Json) (o : Option String)
    → binds v o ≡ true
    → (ref : String) × (o ≡ some ref) × (v ≡ str ref)
unfolding binds
binds-true v none h = cc
binds-true v (some ref) h = (ref, refl, equals_text-true v ref h)

score-range :
    (v : Json) (f : Float)
    → score_of v ≡ some f
    → below_floor f ≡ false
    → (n : ℕ) × (d : ℕ) × (f ≡ finite (pos n) d) × (suc d ≤ 2 * n) × (n ≤ suc d)
unfolding score_of below_floor
score-range v (finite (pos n) d) h k = (n, d, refl, ground arith, ground arith)
score-range v _ h k = cc

fields_of-some : (v : Json) {d : Fields} → fields_of v ≡ some d → v ≡ obj d
unfolding fields_of
fields_of-some (obj d) h = ground arith
fields_of-some _ h = cc

resolve_report-dict :
    (is_digit : Char → Bool) (entry : CheckEntry) (v : Json)
    → (resolve_report is_digit entry v).resolved ≡ true
    → (d : Fields) × (v ≡ obj d) × ((returned (check_report is_digit entry d)).resolved ≡ true)
unfolding resolve_report
resolve_report-dict is_digit entry v h = elim (Option-cases (fields_of v)) [
  | inl n ↦ ground arith
  | inr (d, e) ↦ (d, fields_of-some v e, ground arith)
]

module _ (os : Platform) (loader : ReportLoader) (entry : CheckEntry) (proof : EnforcedProof)
    {res : ProofResolution} where
  loaded_bytes :
      resolve_enforced_proof os entry proof (some loader) ≡ ok res
      → res.resolved ≡ true
      → (raw : Bytes) × (loader proof.uri ≡ ok raw)
  unfolding resolve_enforced_proof
  loaded_bytes h k = ground arith

  decoded_report :
      (raw : Bytes)
      → loader proof.uri ≡ ok raw
      → resolve_enforced_proof os entry proof (some loader) ≡ ok res
      → res.resolved ≡ true
      → (v : Json) × (loads_bytes os raw ≡ ok v)
  unfolding resolve_enforced_proof
  decoded_report raw e h k = ground arith

  -- The report was loaded and decoded, and it is the one with the proof's digest.
  reached_report :
      (raw : Bytes) (v : Json)
      → loader proof.uri ≡ ok raw
      → loads_bytes os raw ≡ ok v
      → resolve_enforced_proof os entry proof (some loader) ≡ ok res
      → res.resolved ≡ true
      → (str_eq (os.sha256_hex raw) proof.sha256 ≡ true)
        × (resolve_report os.is_digit entry v ≡ res)
  unfolding resolve_enforced_proof
  reached_report raw v e f h k = ground arith

  -- If a proof resolves, then the bytes behind its URI have its digest, and are a HarnessBench report
  -- of the check's threat class that measured exactly the check's `config_ref`, enforced at least
  -- once and never merely advised, and scored between one half and one.
  pub resolve_enforced_proof-IsResolved :
      resolve_enforced_proof os entry proof (some loader) ≡ ok res
      → res.resolved ≡ true
      → IsResolved os loader entry proof
  resolve_enforced_proof-IsResolved h k =
      let (raw, loaded) = loaded_bytes h k in
      let (v, decoded) = decoded_report raw loaded h k in
      let (digest, e) = reached_report raw v loaded decoded h k in
      let (d, is_obj, go_on) =
        resolve_report-dict os.is_digit entry v (subst (λ r. r.resolved ≡ true) (sym e) k) in
      let is_proof = check_report-IsProof os.is_digit entry d go_on in
      let (ref, config, declared) =
        binds-true (get "config_sha256" d) entry.check.config_ref is_proof.measured.bound in
      let (n, m, score, half, one) =
        score-range (get "ees" d) is_proof.ees is_proof.has_ees is_proof.measured.above_floor in
      record {
        raw = raw;
        loaded = loaded;
        digest = (eq_iff (os.sha256_hex raw) proof.sha256).0 digest;
        report = d;
        decoded = decoded ∙ ap ok is_obj;
        is_proof = is_proof;
        ref = ref;
        config_ref = config;
        config_sha256 = declared;
        numerator = n;
        denominator_pred = m;
        score = score;
        at_least_half = half;
        at_most_one = one;
      }

-- ===== src/HbResolve/Laws.antt =====
-- What a resolved proof rests on.
use checkseal.Common.{
  ℕ, ◌<◌, String, Bool, true, false, ◌≡◌, ap, ◌∙◌, some, arith, str_eq, eq_iff, inl, inr,
  Option-cases,
}
use Prim.Native.Char.{Char}
use checkseal.Json.{Float, str, Fields, get, text_of, fields_of, equals_text, equals_text-true}
use checkseal.Model.CheckEntry.{CheckEntry}
use checkseal.HbResolve.Early.{returned}
use checkseal.HbResolve.Report.{
  count_of, below_floor, score_of, binds, check_measurement, check_report, threat_class_of,
  check_threat_class,
}

-- The report measured the configuration that the check names, and found that it enforces.
pub record IsMeasured (entry : CheckEntry) (report : Fields) (ees : Float) : Type 0 where
  pub verdicts : Fields
  pub has_verdicts : fields_of (get "verdicts" report) ≡ some verdicts
  pub enforced : ℕ
  pub has_enforced : count_of (get "enforced" verdicts) ≡ some enforced
  pub some_enforced : 0 < enforced
  pub none_advised : count_of (get "advised" verdicts) ≡ some 0
  pub above_floor : below_floor ees ≡ false
  pub bound : binds (get "config_sha256" report) entry.check.config_ref ≡ true

module _ (entry : CheckEntry) (report : Fields) (corpus threat : String) (ees : Float)
    (h : (returned (check_measurement entry report corpus threat ees)).resolved ≡ true) where
  has_verdicts_of : (v : Fields) × (fields_of (get "verdicts" report) ≡ some v)
  unfolding check_measurement
  has_verdicts_of = ground arith

  has_enforced_of :
      (v : Fields)
      → fields_of (get "verdicts" report) ≡ some v
      → (n : ℕ) × (count_of (get "enforced" v) ≡ some n)
  unfolding check_measurement
  has_enforced_of v e = ground arith

  measured_of :
      (v : Fields) (n : ℕ)
      → fields_of (get "verdicts" report) ≡ some v
      → count_of (get "enforced" v) ≡ some n
      → (0 < n)
        × (count_of (get "advised" v) ≡ some 0)
        × (below_floor ees ≡ false)
        × (binds (get "config_sha256" report) entry.check.config_ref ≡ true)
  unfolding check_measurement
  measured_of v n e k = ground arith

  check_measurement-IsMeasured : IsMeasured entry report ees
  check_measurement-IsMeasured =
      let (v, e) = has_verdicts_of in
      let (n, k) = has_enforced_of v e in
      let (positive, advised, floor, bound) = measured_of v n e k in
      record {
        verdicts = v;
        has_verdicts = e;
        enforced = n;
        has_enforced = k;
        some_enforced = positive;
        none_advised = advised;
        above_floor = floor;
        bound = bound;
      }

module _ (is_digit : Char → Bool) (entry : CheckEntry) (report : Fields) where
  -- The whole report proves that the check's gate enforces.
  pub record IsProof : Type 0 where
    pub schema : get "schema" report ≡ str "harnessbench-report/v1"
    pub corpus : String
    pub has_corpus : text_of (get "corpus" report) ≡ some corpus
    pub same_class :
        text_of (threat_class_of is_digit report corpus) ≡ some (check_threat_class entry)
    pub ees : Float
    pub has_ees : score_of (get "ees" report) ≡ some ees
    pub measured : IsMeasured entry report ees

  module _ (h : (returned (check_report is_digit entry report)).resolved ≡ true) where
    has_schema_of : equals_text (get "schema" report) "harnessbench-report/v1" ≡ true
    unfolding check_report
    has_schema_of = ground arith

    has_corpus_of : (c : String) × (text_of (get "corpus" report) ≡ some c)
    unfolding check_report
    has_corpus_of = ground arith

    has_ees_of : (f : Float) × (score_of (get "ees" report) ≡ some f)
    unfolding check_report
    has_ees_of = ground arith

    class_of :
        (c : String) (f : Float)
        → text_of (get "corpus" report) ≡ some c
        → score_of (get "ees" report) ≡ some f
        → (t : String) × (text_of (threat_class_of is_digit report c) ≡ some t)
          × (str_eq t (check_threat_class entry) ≡ true)
          × ((returned (check_measurement entry report c t f)).resolved ≡ true)
    unfolding check_report
    class_of c f e k = elim (Option-cases (text_of (threat_class_of is_digit report c))) [
      | inl n ↦ ground arith
      | inr (t, m) ↦ (t, m, ground arith, ground arith)
    ]

    pub check_report-IsProof : IsProof
    check_report-IsProof =
        let (c, e) = has_corpus_of in
        let (f, k) = has_ees_of in
        let (t, m, same, go_on) = class_of c f e k in
        record {
          schema = equals_text-true _ _ has_schema_of;
          corpus = c;
          has_corpus = e;
          same_class = m ∙ ap some ((eq_iff t (check_threat_class entry)).0 same);
          ees = f;
          has_ees = k;
          measured = check_measurement-IsMeasured entry report c t f go_on;
        }

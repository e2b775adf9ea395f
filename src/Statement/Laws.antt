-- ===== src/Statement/Laws.antt =====
-- Statements are read back as they were built, and couple the two subjects.
use text.Mathlib.TextPositions.{eq_refl}
use checkseal.Common.{
  String, ◌≡◌, refl, true, arith, some, none, Option, Bool-cases, subst, inr, ◌∙◌, inl, ap,
}
use checkseal.Common.Outcome.{ok, >>=-eq-ok}
use checkseal.Json.{
  Json, Fields, str, arr, obj, item, no_items, get, get_or, as_dict, equals_text, or_raise,
  as_dict-eq-ok, equals_text-true,
}
use checkseal.Model.Predicate
use checkseal.Model.Predicate.{
  Predicate, IsWellFormed, Predicate-round_trip, Predicate-accepted-IsWellFormed,
}
use checkseal.Statement.{
  build_statement, parse_statement, parse_fields, couple, single_of, statement_type, predicate_type,
  match_subjects, couple_single, couple_subject,
}

-- A statement built from a well-formed predicate is accepted, and gives the predicate back.
pub parse_statement-build_statement :
    (p : Predicate) → IsWellFormed p → parse_statement (build_statement p) ≡ ok p
unfolding parse_statement build_statement as_dict get_or equals_text
parse_statement-build_statement p h =
    rw (Predicate-round_trip p h, eq_refl p.subject.name, eq_refl p.subject.digest) refl

-- What an accepted statement looks like.
pub record IsCoupled (v : Json) (p : Predicate) : Type 0 where
  pub members : Fields
  pub is_dict : v ≡ obj members
  pub subject : Fields
  pub digest : Fields
  pub single : get "subject" members ≡ arr (item (obj subject) no_items)
  pub has_digest : get "digest" subject ≡ obj digest
  pub same_name : get "name" subject ≡ str p.subject.name
  pub same_digest : get "sha256" digest ≡ str p.subject.digest
  pub type : get "_type" members ≡ str statement_type
  pub predicate_type : get "predicateType" members ≡ str predicate_type
  pub predicate : Predicate.from_jsonable (get "predicate" members) ≡ ok p

single_of-some : (v : Json) {w : Json} → single_of v ≡ some w → v ≡ arr (item w no_items)
unfolding single_of
single_of-some (arr (item v no_items)) h = ground arith
single_of-some _ h = cc

or_raise-eq-ok {ℓ} :
    {A : Type ℓ} (o : Option A) (msg : String) {a : A} → or_raise o msg ≡ ok a → o ≡ some a
or_raise-eq-ok none msg h = cc
or_raise-eq-ok (some b) msg h = ground arith

match_subjects-eq-ok :
    (p : Predicate) (s0 dig : Fields) {q : Predicate}
    → match_subjects p s0 dig ≡ ok q
    → (p ≡ q)
      × (equals_text (get "name" s0) p.subject.name ≡ true)
      × (equals_text (get "sha256" dig) p.subject.digest ≡ true)
unfolding match_subjects
match_subjects-eq-ok p s0 dig h = ground arith

-- The tests on the two types, and the call of `Predicate.from_jsonable`.
parse_fields-eq-ok :
    (d : Fields) {q : Predicate}
    → parse_fields d ≡ ok q
    → (p : Predicate) × (Predicate.from_jsonable (get "predicate" d) ≡ ok p)
      × (couple p d ≡ ok q)
      × (equals_text (get "_type" d) statement_type ≡ true)
      × (equals_text (get "predicateType" d) predicate_type ≡ true)
unfolding parse_fields
parse_fields-eq-ok d h = elim (Bool-cases (equals_text (get "_type" d) statement_type)) [
  | inr n ↦ ground arith
  | inl t ↦ elim (Bool-cases (equals_text (get "predicateType" d) predicate_type)) [
    | inr n ↦ ground arith
    | inl u ↦
        let (p, e, c) =
          >>=-eq-ok (Predicate.from_jsonable (get "predicate" d)) (λ p. couple p d)
            (ground arith) in
        (p, e, c, t, u)
  ]
]

couple-IsCoupled :
    (v : Json) (d : Fields) (p q : Predicate)
    → v ≡ obj d
    → equals_text (get "_type" d) statement_type ≡ true
    → equals_text (get "predicateType" d) predicate_type ≡ true
    → Predicate.from_jsonable (get "predicate" d) ≡ ok p
    → couple p d ≡ ok q
    → IsCoupled v q
unfolding couple couple_single couple_subject
couple-IsCoupled v d p q is_dict t u parsed h =
    let (subject, e, h₁) =
      >>=-eq-ok (or_raise (single_of (get "subject" d)) "statement.subject: single-item list")
        (couple_single p) h in
    let (s0, e₁, h₂) =
      >>=-eq-ok (as_dict subject "statement.subject[0]: object") (couple_subject p) h₁ in
    let (dig, e₂, h₃) =
      >>=-eq-ok (as_dict (get "digest" s0) "statement.subject[0].digest: object")
        (match_subjects p s0) h₂ in
    let (same, n, g) = match_subjects-eq-ok p s0 dig h₃ in
    subst (IsCoupled v) same (record {
      members = d;
      is_dict = is_dict;
      subject = s0;
      digest = dig;
      single =
          single_of-some (get "subject" d) (or_raise-eq-ok (single_of (get "subject" d)) _ e)
          ∙ ap (λ w. arr (item w no_items)) (as_dict-eq-ok subject _ e₁);
      has_digest = as_dict-eq-ok (get "digest" s0) _ e₂;
      same_name = equals_text-true _ _ n;
      same_digest = equals_text-true _ _ g;
      type = equals_text-true _ _ t;
      predicate_type = equals_text-true _ _ u;
      predicate = parsed;
    })

-- An accepted statement names, as its one subject, the predicate's name and digest, has the two
-- types, and its predicate is the one returned, which is well formed.
pub parse_statement-IsCoupled :
    (v : Json) {p : Predicate} → parse_statement v ≡ ok p → IsCoupled v p × IsWellFormed p
unfolding parse_statement
parse_statement-IsCoupled v {p} h =
    let (d, e, q) = >>=-eq-ok (as_dict v "statement: must be an object") parse_fields h in
    let (r, parsed, c, t, u) = parse_fields-eq-ok d q in
    let coupled : IsCoupled v p = couple-IsCoupled v d r p (as_dict-eq-ok v _ e) t u parsed c in
    (coupled, Predicate-accepted-IsWellFormed _ coupled.predicate)

-- ===== src/Ledger/Laws.antt =====
-- The records come out in the order of their ids, whatever order the ledger returns them in.
use checkseal.Common.{
  true, false, ◌≡◌, refl, subst, arith, List, [], ◌∷◌, All, All-mono, map, Bool-cases, inl, inr,
  Option, none, some,
}
use checkseal.Common.Int.{ℤ, pos, negsuc}
use checkseal.Common.Outcome.{Outcome, ok, >>=-eq-ok}
use checkseal.Platform.{Platform}
use checkseal.Store.{T0Record, CheckResult}
use checkseal.Ledger.{
  LedgerRecord, LedgerPackage, le_id, insert_by_id, sort_by_id, own_result, decode_record,
  t0_record, yield_record, iter_records, iter_checkseal, ledger_read, load_vl,
}

-- Every id is at most those that follow.
abbrev pub Ascending : List ℤ → Type 0
Ascending [] = Unit
Ascending (z ∷ zs) = All (λ y. le_id z y ≡ true) zs × Ascending zs

abbrev ids : List LedgerRecord → List ℤ
ids [] = []
ids (r ∷ rs) = r.id ∷ ids rs

pub le_id_total : (a b : ℤ) → le_id a b ≡ false → le_id b a ≡ true
unfolding le_id
le_id_total (pos a) (pos b) h = ground arith
le_id_total (pos a) (negsuc b) h = ground arith
le_id_total (negsuc a) (pos b) h = ground arith
le_id_total (negsuc a) (negsuc b) h = ground arith

le_id_trans : (a b c : ℤ) → le_id a b ≡ true → le_id b c ≡ true → le_id a c ≡ true
unfolding le_id
le_id_trans (pos a) (pos b) (pos c) h k = ground arith
le_id_trans (pos a) (pos b) (negsuc c) h k = ground arith
le_id_trans (pos a) (negsuc b) c h k = cc
le_id_trans (negsuc a) (pos b) (pos c) h k = ground arith
le_id_trans (negsuc a) (pos b) (negsuc c) h k = cc
le_id_trans (negsuc a) (negsuc b) (pos c) h k = ground arith
le_id_trans (negsuc a) (negsuc b) (negsuc c) h k = ground arith

All-insert_by_id :
    (z : ℤ) (r : LedgerRecord) (rs : List LedgerRecord)
    → le_id z r.id ≡ true
    → All (λ y. le_id z y ≡ true) (ids rs)
    → All (λ y. le_id z y ≡ true) (ids (insert_by_id r rs))
unfolding insert_by_id
All-insert_by_id z r [] h k = (h, tt)
All-insert_by_id z r (s ∷ rs) h k = elim (Bool-cases (le_id r.id s.id)) [
  | inl first ↦ rw (first) (h, k)
  | inr later ↦ rw (later) (k.0, All-insert_by_id z r rs h k.1)
]

insert_by_id-Ascending :
    (r : LedgerRecord) (rs : List LedgerRecord)
    → Ascending (ids rs)
    → Ascending (ids (insert_by_id r rs))
unfolding insert_by_id
insert_by_id-Ascending r [] h = (tt, tt)
insert_by_id-Ascending r (s ∷ rs) h = elim (Bool-cases (le_id r.id s.id)) [
  | inl first ↦
      rw (first) ((first, All-mono (λ y k. le_id_trans r.id s.id y first k) (ids rs) h.0), h)
  | inr later ↦ rw (later) (
    All-insert_by_id s.id r rs (le_id_total r.id s.id later) h.0,
    insert_by_id-Ascending r rs h.1,
  )
]

sort_by_id-Ascending : (rs : List LedgerRecord) → Ascending (ids (sort_by_id rs))
unfolding sort_by_id
sort_by_id-Ascending [] = tt
sort_by_id-Ascending (r ∷ rs) = insert_by_id-Ascending r (sort_by_id rs) (sort_by_id-Ascending rs)

abbrev row_ids : List (T0Record × CheckResult) → List ℤ
row_ids [] = []
row_ids ((t0, r) ∷ rows) = t0.id ∷ row_ids rows

abbrev pub record_ids : List T0Record → List ℤ
record_ids [] = []
record_ids (t0 ∷ rows) = t0.id ∷ record_ids rows

record_ids-map :
    (rows : List (T0Record × CheckResult)) → record_ids (map (λ row. row.0) rows) ≡ row_ids rows
record_ids-map [] = refl
record_ids-map ((t0, r) ∷ rows) = rw (record_ids-map rows) refl

module _ (os : Platform) where
  t0_record-id :
      (r : LedgerRecord) (result : CheckResult) {row : T0Record × CheckResult}
      → t0_record os r result ≡ ok row
      → row.0.id ≡ r.id
  unfolding t0_record
  t0_record-id r result {row} h = ground arith

  yield_record-All :
      (z : ℤ) (r : LedgerRecord) (own : Option CheckResult)
      (later : Outcome (List (T0Record × CheckResult))) {rows : List (T0Record × CheckResult)}
      → le_id z r.id ≡ true
      → ((rest : List (T0Record × CheckResult))
          → later ≡ ok rest
          → All (λ y. le_id z y ≡ true) (row_ids rest))
      → yield_record os r own later ≡ ok rows
      → All (λ y. le_id z y ≡ true) (row_ids rows)
  unfolding yield_record
  yield_record-All z r none later {rows} k ih h = ih rows h
  yield_record-All z r (some result) later {rows} k ih h =
      let (row, a, b) = >>=-eq-ok (t0_record os r result) _ h in
      let (rest, c, d) = >>=-eq-ok later (λ rest. ok (row ∷ rest)) b in
      subst (λ rs. All (λ y. le_id z y ≡ true) (row_ids rs)) {x = row ∷ rest} (cc d)
        (rw (t0_record-id r result a) k, ih rest c)

  iter_records-All :
      (z : ℤ) (rs : List LedgerRecord) {rows : List (T0Record × CheckResult)}
      → All (λ y. le_id z y ≡ true) (ids rs)
      → iter_records os rs ≡ ok rows
      → All (λ y. le_id z y ≡ true) (row_ids rows)
  unfolding iter_records
  iter_records-All z [] {rows} k h =
      subst (λ rs. All (λ y. le_id z y ≡ true) (row_ids rs)) {x = []} (cc h) tt
  iter_records-All z (r ∷ rs) {rows} k h =
      let (own, a, b) =
        >>=-eq-ok (own_result (decode_record os r))
          (λ own. yield_record os r own (iter_records os rs)) h in
      yield_record-All z r own (iter_records os rs) {rows = rows} k.0
        (λ rest e. iter_records-All z rs {rows = rest} k.1 e) b

  yield_record-Ascending :
      (r : LedgerRecord) (own : Option CheckResult)
      (later : Outcome (List (T0Record × CheckResult))) {rows : List (T0Record × CheckResult)}
      → ((rest : List (T0Record × CheckResult))
          → later ≡ ok rest
          → All (λ y. le_id r.id y ≡ true) (row_ids rest) × Ascending (row_ids rest))
      → yield_record os r own later ≡ ok rows
      → Ascending (row_ids rows)
  unfolding yield_record
  yield_record-Ascending r none later {rows} ih h = (ih rows h).1
  yield_record-Ascending r (some result) later {rows} ih h =
      let (row, a, b) = >>=-eq-ok (t0_record os r result) _ h in
      let (rest, c, d) = >>=-eq-ok later (λ rest. ok (row ∷ rest)) b in
      subst (λ rs. Ascending (row_ids rs)) {x = row ∷ rest} (cc d)
        (rw (t0_record-id r result a) (ih rest c))

  iter_records-Ascending :
      (rs : List LedgerRecord) {rows : List (T0Record × CheckResult)}
      → Ascending (ids rs)
      → iter_records os rs ≡ ok rows
      → Ascending (row_ids rows)
  unfolding iter_records
  iter_records-Ascending [] {rows} k h = subst (λ rs. Ascending (row_ids rs)) {x = []} (cc h) tt
  iter_records-Ascending (r ∷ rs) {rows} k h =
      let (own, a, b) =
        >>=-eq-ok (own_result (decode_record os r))
          (λ own. yield_record os r own (iter_records os rs)) h in
      yield_record-Ascending r own (iter_records os rs) {rows = rows}
        (λ rest e. (iter_records-All r.id rs k.0 e, iter_records-Ascending rs {rows = rest} k.1 e))
        b

  -- What `read` returns is in the order of the ids, whatever order the ledger returns its records in.
  pub ledger_read-Ascending :
      {Db Trust : Type 0} (vl : LedgerPackage Db Trust) (db : Db) {rows : List T0Record}
      → ledger_read os vl db ≡ ok rows
      → Ascending (record_ids rows)
  unfolding ledger_read iter_checkseal
  ledger_read-Ascending vl db {rows} h =
      let (pairs, a, b) = >>=-eq-ok (iter_checkseal os vl db) _ h in
      let (done, c, d) = >>=-eq-ok (load_vl vl.installed) _ a in
      let (records, e, f) = >>=-eq-ok (vl.read_all db) _ d in
      subst (λ rs. Ascending (record_ids rs)) {x = map (λ row. row.0) pairs} (cc b)
        (rw (record_ids-map pairs)
          (iter_records-Ascending (sort_by_id records) (sort_by_id-Ascending records) f))

-- ===== src/Store/Refinement.antt =====
-- The JSONL file refines a list of appended results: what `append` does to the file, and what the
-- readers make of it.
use checkseal.Common.{
  ℕ, suc, ◌+◌, String, Bool, true, ◌≡◌, refl, ap, ◌∙◌, List, [], ◌∷◌, ◌++◌, none, some, str_eq,
  Bool-cases, inl, inr, if◌then◌else◌, arith, All, is_empty, subst,
}
use checkseal.Common.Lists.{length, All-snoc}
use checkseal.Common.Int.{ℤ, pos}
use checkseal.Common.Text.{strip, nonempty}
use checkseal.Common.Outcome.{ok, raise, vcr_error, ◌>>=◌, >>=-eq-ok}
use checkseal.Json.Sorted.{sort_json}
use checkseal.JsonUtils.Sorted.{plain_json-sort_json}
use checkseal.Model.Subject.{Subject}
use checkseal.Model.CheckEntry.{CheckEntry}
use checkseal.Platform.{Platform}
use checkseal.Digest.{canonical_bytes}
use checkseal.Seal.{assemble}
use checkseal.Store.{
  CheckResult, result_to_jsonable, T0Record, Lines, lines_of, next_id, succ, row_of, record_result,
  read_line, read_lines, read, entries_for, read_for_subject, append,
}
use checkseal.Store.Laws.{
  IsWellFormed, result_distinct, result-round_trip, row_distinct, record_from-row,
}

-- What the store stands for: the results in the order of their appends, each with its retention mark.
abbrev pub Log : Type 0
Log = List (CheckResult × Bool)

-- The entries of a log whose subject has the digest, in the order of their appends.
unfoldable pub logged_entries : String → Log → List CheckEntry
logged_entries digest [] = []
logged_entries digest ((r, durable) ∷ log) =
    if str_eq r.subject.digest digest
    then r.entry ∷ logged_entries digest log
    else logged_entries digest log

module _ (os : Platform) where
  abbrev pub payload_of : CheckResult → String
  payload_of r = os.dump_json (result_to_jsonable r)

  -- The record of a result with its id.
  abbrev pub logged_row : ℕ → CheckResult → Bool → T0Record
  logged_row n r durable = record {
    id = pos n;
    payload = payload_of r;
    source_trust = r.entry.provenance.authority;
    durable = durable;
    created_at = r.entry.runtime.ran_at;
  }

  -- The records of a log, numbered from `n`.
  unfoldable pub logged_rows : ℕ → Log → List T0Record
  logged_rows n [] = []
  logged_rows n ((r, durable) ∷ log) = logged_row n r durable ∷ logged_rows (suc n) log

  -- `json.loads` gives back the result that `json.dumps` wrote, its members sorted.
  pub record Decodes (r : CheckResult) : Type 0 where
    pub well_formed : IsWellFormed r
    pub payload : os.parse_json (payload_of r) ≡ ok (sort_json (result_to_jsonable r))

  -- What the encodings do with a result that is appended with an id: UTF-8 decodes what it encoded,
  -- and the row is one line of text that reads back.
  pub record Persists (n : ℕ) (r : CheckResult) (durable : Bool) : Type 0 where
    pub decodes : Decodes r
    pub utf8 : os.decode_utf8 (canonical_bytes os (result_to_jsonable r)) ≡ ok (payload_of r)
    pub printed : nonempty (strip (os.dump_ascii (row_of (pos n) (payload_of r) r durable))) ≡ true
    pub row :
        os.parse_json (strip (os.dump_ascii (row_of (pos n) (payload_of r) r durable)))
        ≡ ok (sort_json (row_of (pos n) (payload_of r) r durable))

  -- The encodings read back for every result of a log, numbered from `n`.
  abbrev pub Persisting : ℕ → Log → Type 0
  Persisting n [] = Unit
  Persisting n ((r, durable) ∷ log) = Persists n r durable × Persisting (suc n) log

  -- A file holds a log: it reads as the log's records numbered from 1, and their payloads decode.
  pub record Represents (file : Lines) (log : Log) : Type 0 where
    pub rows : read os file ≡ ok (logged_rows 1 log)
    pub results : All (λ e. Decodes e.0) log

  -- A file's history: the results appended to it since there was no file.
  pub data History : Lines → Log → Type 0 where
    fresh : History none []
    grown :
        {file file' : Lines} {log : Log} (n : ℤ) (r : CheckResult) (durable : Bool)
        → History file log
        → append os file r durable ≡ ok (n, file')
        → History file' (log ++ ((r, durable) ∷ []))

  next_id-logged_rows :
      (n : ℕ) (e : CheckResult × Bool) (log : Log)
      → next_id (logged_rows n (e ∷ log)) ≡ pos (n + suc (length log))
  unfolding next_id succ logged_rows
  next_id-logged_rows n (r, durable) [] = ground arith
  next_id-logged_rows n (r, durable) ((r', durable') ∷ log) =
      next_id-logged_rows (suc n) (r', durable') log ∙ ap pos (omega arith)

  pub record_result-logged_row :
      (n : ℕ) (r : CheckResult) (durable : Bool)
      → Decodes r
      → record_result os (logged_row n r durable) ≡ ok r
  unfolding record_result
  record_result-logged_row n r durable h =
      rw
        (
          h.payload,
          plain_json-sort_json (result_to_jsonable r) (result_distinct r),
          result-round_trip r h.well_formed,
        )
        refl

  entries_for-logged_rows :
      (digest : String) (n : ℕ) (log : Log)
      → All (λ e. Decodes e.0) log
      → entries_for os digest (logged_rows n log) ≡ ok (logged_entries digest log)
  unfolding entries_for logged_rows logged_entries
  entries_for-logged_rows digest n [] h = refl
  entries_for-logged_rows digest n ((r, durable) ∷ log) h =
      rw (record_result-logged_row n r durable h.0, entries_for-logged_rows digest (suc n) log h.1)
        refl

  read_line-row :
      (n : ℕ) (r : CheckResult) (durable : Bool)
      → Persists n r durable
      → read_line os (strip (os.dump_ascii (row_of (pos n) (payload_of r) r durable)))
        ≡ ok (logged_row n r durable)
  unfolding read_line
  read_line-row n r durable h =
      rw
        (
          h.row,
          plain_json-sort_json (row_of (pos n) (payload_of r) r durable)
              (row_distinct (pos n) (payload_of r) r durable),
          record_from-row os (pos n) (payload_of r) r durable,
        )
        refl

  logged_rows-snoc :
      (n : ℕ) (log : Log) (r : CheckResult) (durable : Bool)
      → logged_rows n (log ++ ((r, durable) ∷ []))
        ≡ logged_rows n log ++ (logged_row (n + length log) r durable ∷ [])
  unfolding logged_rows
  logged_rows-snoc n [] r durable = ground arith
  logged_rows-snoc n ((r', durable') ∷ log) r durable =
      ground (arith, logged_rows-snoc (suc n) log r durable)

  read_lines-snoc :
      (lines : List String) (line : String) {rows : List T0Record} {row : T0Record}
      → read_lines os lines ≡ ok rows
      → nonempty (strip line) ≡ true
      → read_line os (strip line) ≡ ok row
      → read_lines os (lines ++ (line ∷ [])) ≡ ok (rows ++ (row ∷ []))
  unfolding read_lines
  read_lines-snoc [] line {rows} {row} h p q = ground arith
  read_lines-snoc (first ∷ lines) line {rows} {row} h p q =
      elim (Bool-cases (nonempty (strip first))) [
        | inr blank ↦ rw (blank) (read_lines-snoc lines line {rows = rows} (rw (blank) at h) p q)
        | inl printed ↦
            let (row', a, b) =
              >>=-eq-ok (read_line os (strip first))
                (λ row'. read_lines os lines >>= λ rows'. ok (row' ∷ rows')) (rw (printed) at h) in
            let (rows', c, d) = >>=-eq-ok (read_lines os lines) (λ rows'. ok (row' ∷ rows')) b in
            ground (arith, read_lines-snoc lines line {rows = rows'} c p q)
      ]

  read_lines-lines_of : (file : Lines) → read_lines os (lines_of file) ≡ read os file
  unfolding read read_lines
  read_lines-lines_of none = refl
  read_lines-lines_of (some lines) = refl

  next_id-log : (log : Log) → next_id (logged_rows 1 log) ≡ pos (suc (length log))
  unfolding next_id logged_rows
  next_id-log [] = refl
  next_id-log (e ∷ log) = next_id-logged_rows 1 e log ∙ ap pos (omega arith)

  suc-length : (log : Log) → ◌≡◌ {A = ℕ} (1 + length log) (suc (length log))
  suc-length log = omega arith

  -- The line that an append to a file with the log writes.
  abbrev pub next_line : Log → CheckResult → Bool → String
  next_line log r durable = os.dump_ascii (row_of (pos (suc (length log))) (payload_of r) r durable)

  -- The file after an append, and the id.
  pub append-Log :
      (file : Lines) (log : Log) (r : CheckResult) (durable : Bool)
      → read os file ≡ ok (logged_rows 1 log)
      → Persists (suc (length log)) r durable
      → append os file r durable
        ≡ ok (pos (suc (length log)), some (lines_of file ++ (next_line log r durable ∷ [])))
  unfolding append
  append-Log file log r durable h p = rw (h, p.utf8, next_id-log log) refl

  -- Where a file holds a log, `append` succeeds for a result whose encodings read back: it returns
  -- one more than the number of results in the log, and the file then holds the log with the result
  -- at its end.
  pub append-Represents :
      (file : Lines) (log : Log) (r : CheckResult) (durable : Bool)
      → Represents file log
      → Persists (suc (length log)) r durable
      → (file' : Lines) × (append os file r durable ≡ ok (pos (suc (length log)), file'))
        × Represents file' (log ++ ((r, durable) ∷ []))
  unfolding read
  append-Represents file log r durable h p = (
    some (lines_of file ++ (next_line log r durable ∷ [])),
    append-Log file log r durable h.rows p,
    record {
      rows =
          read_lines-snoc (lines_of file) (next_line log r durable)
            (read_lines-lines_of file ∙ h.rows) p.printed
            (read_line-row (suc (length log)) r durable p)
          ∙ rw (logged_rows-snoc 1 log r durable, suc-length log) refl;
      results = All-snoc (λ e. Decodes e.0) log (r, durable) h.results p.decodes;
    },
  )

  History-Persists :
      (file : Lines) (log : Log) (n : ℤ) (r : CheckResult) (durable : Bool) {file' : Lines}
      → Represents file log
      → Persists (suc (length log)) r durable
      → append os file r durable ≡ ok (n, file')
      → Represents file' (log ++ ((r, durable) ∷ []))
  History-Persists file log n r durable {file'} h p run =
      let (next, a, b) = append-Represents file log r durable h p in
      subst (λ f. Represents f (log ++ ((r, durable) ∷ []))) {x = next} (cc (a, run)) b

  Persisting-snoc :
      (n : ℕ) (log : Log) (r : CheckResult) (durable : Bool)
      → Persisting n (log ++ ((r, durable) ∷ []))
      → Persisting n log × Persists (n + length log) r durable
  Persisting-snoc n [] r durable p =
      (tt, subst (λ k. Persists k r durable) {x = n} (omega arith) p.0)
  Persisting-snoc n ((r', durable') ∷ log) r durable p =
      let (a, b) = Persisting-snoc (suc n) log r durable p.1 in
      ((p.0, a), subst (λ k. Persists k r durable) {x = suc n + length log} (omega arith) b)

  -- Whatever results were appended since there was no file, if the encodings read back for each, the
  -- file holds them in the order of the appends: it reads as their records, numbered from 1 without
  -- a gap, and every payload decodes to its result.
  pub History-Represents :
      (file : Lines) (log : Log) → History file log → Persisting 1 log → Represents file log
  unfolding read logged_rows
  History-Represents file log fresh p = record { rows = refl; results = tt }
  History-Represents file log
        (grown {file = before} {file' = after} {log = earlier} n r durable past run) p =
      let (a, b) = Persisting-snoc 1 earlier r durable p in
      History-Persists before earlier n r durable (History-Represents before earlier past a)
        (subst (λ k. Persists k r durable) (suc-length earlier) b) run

  -- From a file that holds a log, `read_for_subject` returns the entries of the results whose
  -- subject has the digest, in the order of their appends, and no others.
  pub read_for_subject-Represents :
      (file : Lines) (log : Log) (digest : String)
      → Represents file log
      → read_for_subject os file digest ≡ ok (logged_entries digest log)
  unfolding read_for_subject
  read_for_subject-Represents file log digest h =
      rw (h.rows) (entries_for-logged_rows digest 1 log h.results)

  -- What `assemble` makes of a store with a history whose results the encodings read back: a
  -- predicate of the entries appended for the subject's digest, in order, and an error exactly when
  -- there are none.
  pub assemble-History :
      (file : Lines) (log : Log) (subject : Subject)
      → History file log
      → Persisting 1 log
      → assemble (read_for_subject os file) subject ≡ (
          if is_empty (logged_entries subject.digest log)
          then raise (vcr_error "no stored check-results for subject digest")
          else ok (record {
            subject = subject;
            checks = logged_entries subject.digest log;
            vcr_version = "0.2";
          }))
  unfolding assemble
  assemble-History file log subject h p =
      rw (read_for_subject-Represents file log subject.digest (History-Represents file log h p))
        (ground arith)

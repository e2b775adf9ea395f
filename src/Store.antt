-- ===== src/Store.antt =====
-- store.py: the append-only JSONL store of check results.
pub mod Laws
pub mod Refinement
pub mod Unreadable
use checkseal.Common.{
  String, Bool, List, [], ◌∷◌, ◌++◌, Option, none, some, str_eq, zero, suc, if◌then◌else◌,
}
use checkseal.Common.Int.{ℤ, pos, negsuc}
use checkseal.Common.Text.{strip, nonempty}
use checkseal.Common.Outcome.{Outcome, ok, raise, type_error, key_error, ◌>>=◌, for_each}
use checkseal.Json.{
  Json, Fields, obj, str, int, bool, field, no_fields, get, contains, as_dict, fields_of,
}
use checkseal.Json.Convert.{int_of, str_of, truthy}
use checkseal.JsonUtils.{plain_json}
use checkseal.Model.Enums.{Authority, value, of_value, authority_enum}
use checkseal.Model.Subject
use checkseal.Model.Subject.{Subject}
use checkseal.Model.CheckEntry
use checkseal.Model.CheckEntry.{CheckEntry}
use checkseal.Platform.{Platform}
use checkseal.Digest.{canonical_bytes}

pub record CheckResult : Type 0 where
  pub subject : Subject
  pub entry : CheckEntry

unfoldable pub result_to_jsonable : CheckResult → Json
result_to_jsonable r = obj (
    field "subject" (Subject.to_jsonable r.subject)
      (field "check_entry" (CheckEntry.to_jsonable r.entry) no_fields))

unfoldable pub result_from_jsonable : Json → Outcome CheckResult
result_from_jsonable v = do
  d ← as_dict v "check result: must be an object"
  subject ← Subject.from_jsonable (get "subject" d)
  entry ← CheckEntry.from_jsonable (get "check_entry" d)
  ok (record { subject = subject; entry = entry })

pub record T0Record : Type 0 where
  pub id : ℤ
  pub payload : String
  pub source_trust : Authority
  pub durable : Bool
  pub created_at : String

-- The lines of the store's file, or `none` where there is no file. Every line that the store writes
-- is complete.
abbrev pub Lines : Type 0
Lines = Option (List String)

-- `d[k]`: only a dict takes a text as its index.
unfoldable pub member_at : String → Json → Outcome Json
member_at k v = elim (fields_of v) [
  | none ↦ raise type_error
  | some d ↦ if contains k d then ok (get k d) else raise key_error
]

pub succ : ℤ → ℤ
succ (pos n) = pos (suc n)
succ (negsuc zero) = pos zero
succ (negsuc (suc n)) = negsuc n

-- `(rows[-1].id + 1) if rows else 1`
pub next_id : List T0Record → ℤ
unfolding succ
next_id [] = pos 1
next_id (row ∷ []) = succ row.id
next_id (row ∷ row' ∷ rows) = next_id (row' ∷ rows)

-- The row that `append` writes.
abbrev pub row_of : ℤ → String → CheckResult → Bool → Json
row_of id payload result durable = obj (
    field "id" (int id) (
      field "payload" (str payload) (
        field "source_trust" (str (value result.entry.provenance.authority)) (
          field "durable" (bool durable)
            (field "created_at" (str result.entry.runtime.ran_at) no_fields)))))

abbrev pub lines_of : Lines → List String
lines_of none = []
lines_of (some lines) = lines

module _ (os : Platform) where
  -- `T0Record.result`
  unfoldable pub record_result : T0Record → Outcome CheckResult
  record_result row = do v ← os.parse_json row.payload; result_from_jsonable (plain_json v)

  unfoldable pub record_from : Json → Outcome T0Record
  record_from d = do
    raw_id ← member_at "id" d
    id ← int_of os raw_id
    payload ← member_at "payload" d
    trust ← member_at "source_trust" d
    source_trust ← of_value (str_of os trust)
    durable ← member_at "durable" d
    created_at ← member_at "created_at" d
    ok (record {
      id = id;
      payload = str_of os payload;
      source_trust = source_trust;
      durable = truthy durable;
      created_at = str_of os created_at;
    })

  -- One line that is not blank.
  unfoldable pub read_line : String → Outcome T0Record
  read_line line = do v ← os.parse_json line; record_from (plain_json v)

  -- The loop of `read`.
  unfoldable pub read_lines : List String → Outcome (List T0Record)
  read_lines [] = ok []
  read_lines (line ∷ lines) =
      let row_and_rest = (do
        row ← read_line (strip line)
        rows ← read_lines lines
        ok (row ∷ rows)) in
      let rest = read_lines lines in if nonempty (strip line) then row_and_rest else rest

  -- `read`
  unfoldable pub read : Lines → Outcome (List T0Record)
  unfolding read_lines
  read none = ok []
  read (some lines) = read_lines lines

  -- The results in a list of rows whose subject has the digest.
  unfoldable pub entries_for : String → List T0Record → Outcome (List CheckEntry)
  entries_for digest [] = ok []
  entries_for digest (row ∷ rows) = do
    result ← record_result row
    entries ← entries_for digest rows
    ok (if str_eq result.subject.digest digest then result.entry ∷ entries else entries)

  unfoldable pub read_for_subject : Lines → String → Outcome (List CheckEntry)
  read_for_subject file digest = do rows ← read file; entries_for digest rows

  -- `append`: the id, and the file afterwards.
  unfoldable pub append : Lines → CheckResult → Bool → Outcome (ℤ × Lines)
  append file result durable = do
    rows ← read file
    payload ← os.decode_utf8 (canonical_bytes os (result_to_jsonable result))
    ok (
      next_id rows,
      some (lines_of file ++ (os.dump_ascii (row_of (next_id rows) payload result durable) ∷ [])),
    )

-- ===== src/Store/Laws.antt =====
-- The store as an append-only list of results, numbered from 1.
use checkseal.Common.{String, Bool, true, ◌≡◌, refl, arith}
use checkseal.Common.Int.{ℤ}
use checkseal.Common.Outcome.{ok}
use checkseal.Json.{get_or, as_dict, contains, fields_of}
use checkseal.Json.Sorted.{sort_json, insert_sorted}
use checkseal.Json.Sorted.Laws.{as_dict-sort_json, get-sort_fields}
use checkseal.Json.Convert.{str_of, int_of, truthy}
use checkseal.JsonUtils.Laws.{all_distinct, has_distinct}
use checkseal.Model.Enums.{of_value-value, authority_enum}
use checkseal.Model.Subject
use checkseal.Model.CheckEntry
use checkseal.Model.CheckEntry.{CheckEntry}
use checkseal.Model.Distinct.{Subject_distinct, CheckEntry_distinct}
use checkseal.Model.Unordered.{Subject-sort_json, CheckEntry-sort_json}
use checkseal.Platform.{Platform}
use checkseal.Store.{
  CheckResult, result_to_jsonable, result_from_jsonable, row_of, record_from, member_at, str_of,
  int_of, truthy,
}

-- What the store needs of a result: both parts decode as they were written.
pub record IsWellFormed (r : CheckResult) : Type 0 where
  pub subject : Subject.IsWellFormed r.subject
  pub entry : CheckEntry.IsWellFormed r.entry

pub result_distinct : (r : CheckResult) → all_distinct (result_to_jsonable r) ≡ true
unfolding all_distinct has_distinct contains result_to_jsonable
result_distinct r = ground (arith, Subject_distinct r.subject, CheckEntry_distinct r.entry)

pub result-round_trip :
    (r : CheckResult)
    → IsWellFormed r
    → result_from_jsonable (sort_json (result_to_jsonable r)) ≡ ok r
unfolding result_from_jsonable result_to_jsonable
result-round_trip r h =
    simp (as_dict-sort_json, get-sort_fields, Subject-sort_json, CheckEntry-sort_json)
      (unfold as_dict get_or in
        rw
          (
            Subject.from_jsonable-to_jsonable r.subject h.subject,
            CheckEntry.from_jsonable-to_jsonable r.entry h.entry,
          )
          refl)

pub row_distinct :
    (id : ℤ) (payload : String) (r : CheckResult) (durable : Bool)
    → all_distinct (row_of id payload r durable) ≡ true
unfolding all_distinct has_distinct contains
row_distinct id payload r durable = refl

pub record_from-row :
    (os : Platform) (id : ℤ) (payload : String) (r : CheckResult) (durable : Bool)
    → record_from os (sort_json (row_of id payload r durable))
      ≡ ok (record {
        id = id;
        payload = payload;
        source_trust = r.entry.provenance.authority;
        durable = durable;
        created_at = r.entry.runtime.ran_at;
      })
unfolding record_from member_at sort_json insert_sorted fields_of contains get_or str_of int_of
    truthy
record_from-row os id payload r durable = rw (of_value-value r.entry.provenance.authority) refl

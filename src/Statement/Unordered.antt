-- ===== src/Statement/Unordered.antt =====
-- A Statement is accepted alike whatever the order of the members in its JSON text.
use checkseal.Common.{String, ◌≡◌, refl, true, arith}
use checkseal.Common.Outcome.{Outcome, ◌>>=◌}
use checkseal.Json.{Json, arr, item, no_items, or_raise, contains}
use checkseal.Json.Sorted.{sort_json}
use checkseal.Json.Sorted.Laws.{get-sort_fields, equals_text-sort_json, as_dict-sort_json}
use checkseal.Model.Unordered.{Predicate-sort_json}
use checkseal.Statement.{single_of, match_subjects, parse_statement, build_statement}
use checkseal.JsonUtils.Laws.{all_distinct, has_distinct}
use checkseal.Model.Distinct.{Predicate_distinct}
use checkseal.Model.Predicate.{Predicate}

single_of-sort_json {κ} :
    {B : Type κ} (v : Json) (msg : String) (after : Json → Outcome B)
    → (or_raise (single_of (sort_json v)) msg >>= after)
      ≡ (or_raise (single_of v) msg >>= λ w. after (sort_json w))
unfolding single_of sort_json
single_of-sort_json (arr no_items) msg after = refl
single_of-sort_json (arr (item v no_items)) msg after = refl
single_of-sort_json (arr (item v (item w vs))) msg after = refl
single_of-sort_json _ msg after = refl

ruleset statement_sorting = (
  get-sort_fields, equals_text-sort_json, as_dict-sort_json, single_of-sort_json,
  Predicate-sort_json,
)

-- Sorting the members of a Statement, at any depth, does not change what it is read as.
pub parse_statement-sort_json : (v : Json) → parse_statement (sort_json v) ≡ parse_statement v
unfolding parse_statement match_subjects
parse_statement-sort_json v = simp statement_sorting refl

-- A Statement that is built names no member twice.
pub build_statement_distinct : (p : Predicate) → all_distinct (build_statement p) ≡ true
unfolding build_statement all_distinct has_distinct contains
build_statement_distinct p = ground (arith, Predicate_distinct p)

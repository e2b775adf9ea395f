-- ===== src/Statement.antt =====
-- statement.py: the in-toto Statement around a predicate.
pub mod Laws
pub mod Unordered
use checkseal.Common.{String, Bool, true, false, [], ◌∷◌, ◌&&◌, not, Option, some, none}
use checkseal.Common.Outcome.{Outcome, ok, raise, vcr_error, ◌>>=◌, ◌>>◌, require}
use checkseal.Json.{
  Json, Items, Fields, no_items, item, str, arr, obj, field, no_fields, get, as_dict, equals_text,
  or_raise,
}
use checkseal.Model.Fields.{digest_obj}
use checkseal.Model.Predicate
use checkseal.Model.Predicate.{Predicate}

-- `STATEMENT_TYPE` and `PREDICATE_TYPE`
abbrev pub statement_type : String
statement_type = "https://in-toto.io/Statement/v1"

abbrev pub predicate_type : String
predicate_type = "https://saagarpatel.dev/vcr/v0.2"

unfoldable pub build_statement : Predicate → Json
build_statement p = obj (
    field "_type" (str statement_type) (
      field "subject"
        (arr (
          item
            (obj (
              field "name" (str p.subject.name)
                (field "digest" (digest_obj p.subject.digest) no_fields)))
            no_items))
        (field "predicateType" (str predicate_type)
          (field "predicate" (Predicate.to_jsonable p) no_fields))))

-- `isinstance(subjects, list) and len(subjects) == 1`, and `subjects[0]`
pub single_of : Json → Option Json
single_of (arr (item v no_items)) = some v
single_of _ = none

-- The comparison of the Statement's subject with the predicate's.
pub match_subjects : Predicate → Fields → Fields → Outcome Predicate
match_subjects p s0 dig = do
  require
      (equals_text (get "name" s0) p.subject.name
        && equals_text (get "sha256" dig) p.subject.digest)
      "statement subject does not match predicate subject"
  ok p

pub couple_subject : Predicate → Fields → Outcome Predicate
unfolding match_subjects
couple_subject p s0 = do
  dig ← as_dict (get "digest" s0) "statement.subject[0].digest: object"
  match_subjects p s0 dig

pub couple_single : Predicate → Json → Outcome Predicate
unfolding couple_subject
couple_single p subject = do
  s0 ← as_dict subject "statement.subject[0]: object"
  couple_subject p s0

-- The Statement's subject names the predicate's subject.
pub couple : Predicate → Fields → Outcome Predicate
unfolding couple_single single_of
couple p d = do
  subject ← or_raise (single_of (get "subject" d)) "statement.subject: single-item list"
  couple_single p subject

pub parse_fields : Fields → Outcome Predicate
unfolding couple
parse_fields d = do
  require (equals_text (get "_type" d) statement_type) "statement._type"
  require (equals_text (get "predicateType" d) predicate_type) "statement.predicateType"
  p ← Predicate.from_jsonable (get "predicate" d)
  couple p d

unfoldable pub parse_statement : Json → Outcome Predicate
unfolding parse_fields
parse_statement v = do d ← as_dict v "statement: must be an object"; parse_fields d

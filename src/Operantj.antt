-- ===== src/Operantj.antt =====
-- operantj.py: a receipt of a judge run, as the checks of a seal.
pub mod Members
pub mod Laws
pub mod Ingest
pub mod Sealed
use checkseal.Common.{
  String, ◌<>◌, Bool, true, false, not, ◌&&◌, List, [], ◌∷◌, Option, none, some, is_empty,
  if◌then◌else◌,
}
use checkseal.Common.Text.{
  strip, lower, starts_with, drop, nonempty, universal_newlines, splitlines,
}
use checkseal.Common.Outcome.{
  Outcome, ok, raise, vcr_error, json_decode_error, ◌>>=◌, ◌>>◌, require, for_each,
}
use checkseal.Json.{
  Json, Fields, Items, no_fields, obj, str, field, get, as_dict, fields_of, items_of, text_of,
  or_raise, is_null, equals_text,
}
use checkseal.Json.Convert.{truthy, str_of}
use checkseal.JsonUtils.{plain_json}
use checkseal.Model.Enums.{
  Runner, CheckKind, Enforced, EvidenceKind, Grade, Authority, SubjectKind, value, runner_enum,
  check_kind_enum, enforced_enum, evidence_kind_enum, grade_enum, authority_enum, subject_kind_enum,
}
use checkseal.Model.Fields.{is_sha256, digest_obj}
use checkseal.Model.Subject
use checkseal.Model.Subject.{Subject}
use checkseal.Model.CheckEntry
use checkseal.Model.CheckEntry.{CheckEntry}
use checkseal.Platform.{Platform}
use checkseal.Digest.{sha256_file}

abbrev pub vcr_v01_predicate : String
vcr_v01_predicate = "https://saagarpatel.dev/schema/vcr/v0.1"

-- `value[len("sha256:"):] if value.startswith("sha256:") else value`
unfoldable pub without_prefix : String → String
without_prefix s = if starts_with s "sha256:" then drop 7 s else s

-- `_bare_hex`
unfoldable pub bare_hex : Json → String → Outcome String
bare_hex v ctx = do
  text ← or_raise (text_of v) (ctx <> ": digest must be a string")
  let hex = lower (strip (without_prefix text))
  require (is_sha256 hex) (ctx <> ": not a sha256 hex digest")
  ok hex

-- `_digest_of`
unfoldable pub digest_of_node : Json → String → Outcome String
unfolding bare_hex
digest_of_node node ctx = do
  d ← as_dict node (ctx <> ": expected a digest object")
  bare_hex (get "sha256" d) ctx

-- `pred.get(k) if isinstance(pred.get(k), dict) else {}`
unfoldable pub dict_or_empty : Json → Fields
dict_or_empty v = elim (fields_of v) [ none ↦ no_fields | some d ↦ d ]

-- The member `config_ref` of the check, where the record has one.
unfoldable pub config_field : Json → Outcome Fields
config_field v = if is_null v then ok no_fields else (do
  d ← as_dict v "check.config_ref: expected a digest object"
  hex ← bare_hex (get "sha256" d) "check.config_ref"
  ok (field "config_ref" (digest_obj hex) no_fields))

-- `check_field`
abbrev pub judge_check : Fields → Fields → Json
judge_check check config = obj (
    field "id" (get "id" check)
      (field "kind" (str (value CheckKind.review)) (field "version" (get "version" check) config)))

abbrev pub judge_verdict : Fields → Json
judge_verdict verdict = obj (
    field "result" (get "result" verdict)
      (field "enforced" (str (value Enforced.observed)) no_fields))

abbrev pub judge_evidence : String → Json
judge_evidence hex = obj (
    field "kind" (str (value EvidenceKind.transcript_digest))
      (field "grade" (str (value Grade.grade_b)) (field "digest" (digest_obj hex) no_fields)))

abbrev pub judge_runtime : Fields → Runner → Json
judge_runtime runtime runner =
    obj (field "ran_at" (get "ran_at" runtime) (field "runner" (str (value runner)) no_fields))

abbrev pub judge_provenance : Json
judge_provenance = obj (
    field "authority" (str (value Authority.agent)) (
      field "instruction_boundary"
        (obj (field "kind" (str "stored_data_not_instructions") no_fields)) no_fields))

-- `entry_dict`
abbrev pub entry_dict : Fields → Fields → Fields → Fields → String → Runner → Json
entry_dict check config verdict runtime hex runner = obj (
    field "check" (judge_check check config) (
      field "verdict" (judge_verdict verdict) (
        field "evidence" (judge_evidence hex) (
          field "runtime" (judge_runtime runtime runner)
            (field "provenance" judge_provenance no_fields)))))

-- The translation, from the `predicate` object.
unfoldable pub entry_from_predicate : Fields → Runner → Outcome CheckEntry
entry_from_predicate pred runner = do
  let check = dict_or_empty (get "check" pred)
  let verdict = dict_or_empty (get "verdict" pred)
  let evidence = dict_or_empty (get "evidence" pred)
  let runtime = dict_or_empty (get "runtime" pred)
  require (equals_text (get "enforced" verdict) (value Enforced.observed))
      "refusing to seal as a judge run: the record declares another enforcement"
  require (is_null (get "enforced_proof" pred) && is_null (get "enforced_proof" verdict))
      "an observed judge record must not carry an enforced_proof"
  config ← config_field (get "config_ref" check)
  hex ← digest_of_node (get "digest" evidence) "evidence.digest"
  CheckEntry.from_jsonable (entry_dict check config verdict runtime hex runner)

unfoldable pub entry_from_vcr_v01 : Runner → Fields → Outcome CheckEntry
entry_from_vcr_v01 runner vcr = do
  require (equals_text (get "predicateType" vcr) vcr_v01_predicate) "not a vcr-core v0.1 record"
  pred ← as_dict (get "predicate" vcr) "record has no predicate object"
  entry_from_predicate pred runner

-- `except json.JSONDecodeError`
abbrev pub malformed_as_vcr_error : Outcome Json → Outcome Json
malformed_as_vcr_error (raise json_decode_error) = raise (vcr_error "malformed JSON")
malformed_as_vcr_error other = other

-- `subj0[0] if isinstance(subj0, list) and subj0 and isinstance(subj0[0], dict) else {}`
unfoldable pub first_subject : Json → Fields
first_subject v = elim (items_of v) [
  | none ↦ no_fields
  | some Items.no_items ↦ no_fields
  | some (Items.item first rest) ↦ dict_or_empty first
]

abbrev pub name_or : Option String → String → String
name_or none default = default
name_or (some name) default = name

-- The subject, as JSON.
abbrev pub subject_json : String → String → Json
subject_json name hex = obj (
    field "kind" (str (value SubjectKind.artifact)) (
      field "name" (str name) (
        field "mediaType" (str "application/x-operant-j-vcr+jsonl")
          (field "digest" (digest_obj hex) no_fields))))

module _ (os : Platform) where
  -- One line that is not blank.
  unfoldable pub parse_record : String → Outcome Fields
  parse_record line = do
    v ← malformed_as_vcr_error (os.parse_json line)
    as_dict (plain_json v) "line is not a JSON object"

  -- The loop of `read_receipt`.
  unfoldable pub read_records : List String → Outcome (List Fields)
  read_records [] = ok []
  read_records (line ∷ lines) =
      let with_record = (do d ← parse_record (strip line); ds ← read_records lines; ok (d ∷ ds)) in
      let rest = read_records lines in if nonempty (strip line) then with_record else rest

  -- `Path(path).read_text(encoding="utf-8")`
  unfoldable pub read_text : String → Outcome String
  read_text path = do
    content ← os.read_file path
    text ← os.decode_utf8 content
    ok (universal_newlines text)

  unfoldable pub read_receipt : String → Outcome (List Fields)
  read_receipt path = do
    text ← read_text path
    records ← read_records (splitlines text)
    require (not (is_empty records)) "empty OPERANT-J receipt"
    ok records

  -- `str(first.get("name") or "operant-j/judge-run")`
  unfoldable pub recorded_name : List Fields → String
  unfolding first_subject
  recorded_name [] = "operant-j/judge-run"
  recorded_name (r ∷ _) =
      if truthy (get "name" (first_subject (get "subject" r)))
      then str_of os (get "name" (first_subject (get "subject" r)))
      else "operant-j/judge-run"

  -- The subject of the file: the digest is that of its bytes.
  unfoldable pub receipt_subject : String → String → Outcome Subject
  receipt_subject path name = do
    hex ← sha256_file os path
    Subject.from_jsonable (subject_json name hex)

  unfoldable pub ingest_operant_j_receipt :
      String → Option String → Runner → Outcome (Subject × List CheckEntry)
  ingest_operant_j_receipt path name runner = do
    records ← read_receipt path
    entries ← for_each (entry_from_vcr_v01 runner) records
    subject ← receipt_subject path (name_or name (recorded_name records))
    ok (subject, entries)

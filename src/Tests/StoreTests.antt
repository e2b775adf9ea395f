-- ===== src/Tests/StoreTests.antt =====
-- store.py at a concrete file of two results.
use checkseal.Common.{
  ◌≡◌, refl, true, false, String, Bool, [], ◌∷◌, ◌==◌, Option, none, some, str_eq, if◌then◌else◌,
  List, is_empty,
}
use checkseal.Common.Int.{pos}
use checkseal.Common.Text.{strip, is_space}
use checkseal.Common.Outcome.{Outcome, ok, raise, vcr_error, json_decode_error}
use checkseal.Json.{Json, int, null, get, get_or, fields_of, text_of}
use checkseal.Json.Sorted.{sort_json}
use checkseal.Model.Subject
use checkseal.Model.Subject.{Subject}
use checkseal.Platform.{Platform, Bytes}
use checkseal.Digest.{canonical_bytes}
use checkseal.Seal.{assemble}
use checkseal.Store.{
  CheckResult, Lines, result_to_jsonable, row_of, read, read_line, read_for_subject, append,
}
use checkseal.Store.Laws.{IsWellFormed}
use checkseal.Store.Refinement.{
  Log, Persists, Represents, History, logged_entries, logged_rows, append-Log, History-Represents,
  assemble-History,
}
use checkseal.Store.Unreadable.{unreadable_line}
use checkseal.Tests.Data.{digest, machine, essay, skill, gate, scan_check}
use checkseal.Tests.ModelTests.{digest-is_sha256, gate-IsWellFormed, scan-IsWellFormed}

abbrev pub gated : CheckResult
gated = record { subject = essay; entry = gate }

abbrev pub scanned_result : CheckResult
scanned_result = record { subject = skill; entry = scan_check }

-- The name of the subject stands for the text of a result.
abbrev pub text_or : Option String → String
text_or none = "?"
text_or (some s) = s

abbrev pub member_of : String → Json → Json
member_of k v = elim (fields_of v) [ none ↦ null | some d ↦ get k d ]

abbrev pub name_in : Json → String
name_in v = text_or (text_of (member_of "name" (member_of "subject" v)))

abbrev line_of : Json → String
line_of (int (pos n)) = if n == 1 then "row 1" else "row 2"
line_of _ = "?"

abbrev stored : String → Outcome Json
stored text =
    if str_eq text "essay/stranded"
    then ok (sort_json (result_to_jsonable gated))
    else if str_eq text "skill-demo"
    then ok (sort_json (result_to_jsonable scanned_result))
    else if str_eq text "row 1"
    then ok (sort_json (row_of (pos 1) "essay/stranded" gated true))
    else if str_eq text "row 2"
    then ok (sort_json (row_of (pos 2) "skill-demo" scanned_result false))
    else raise json_decode_error

abbrev decoded : Bytes → Outcome String
decoded [] = ok "?"
decoded (b ∷ bs) = if b == 1 then ok "essay/stranded" else ok "skill-demo"

abbrev pub archive : Platform
archive = record machine {
  dump_json = name_in;
  dump_ascii = λ v. line_of (member_of "id" v);
  parse_json = stored;
  encode_utf8 = λ s. if str_eq s "essay/stranded" then 1 ∷ [] else 2 ∷ [];
  decode_utf8 = decoded;
}

gated-IsWellFormed : IsWellFormed gated
unfolding checkseal.Model.Fields.within checkseal.Common.Text.length
gated-IsWellFormed = record {
  subject = record { digest = digest-is_sha256; name = refl };
  entry = gate-IsWellFormed;
}

scanned-IsWellFormed : IsWellFormed scanned_result
unfolding checkseal.Model.Fields.within checkseal.Common.Text.length
scanned-IsWellFormed = record {
  subject = record { digest = digest-is_sha256; name = refl };
  entry = scan-IsWellFormed;
}

pub first-Persists : Persists archive 1 gated true
unfolding canonical_bytes result_to_jsonable Subject.to_jsonable get_or fields_of text_of strip
    is_space
first-Persists = record {
  decodes = record { well_formed = gated-IsWellFormed; payload = refl };
  utf8 = refl;
  printed = refl;
  row = refl;
}

pub second-Persists : Persists archive 2 scanned_result false
unfolding canonical_bytes result_to_jsonable Subject.to_jsonable get_or fields_of text_of strip
    is_space
second-Persists = record {
  decodes = record { well_formed = scanned-IsWellFormed; payload = refl };
  utf8 = refl;
  printed = refl;
  row = refl;
}

abbrev pub one_line : Lines
one_line = some ("row 1" ∷ [])

abbrev pub two_lines : Lines
two_lines = some ("row 1" ∷ "row 2" ∷ [])

abbrev pub one : Log
one = (gated, true) ∷ []

abbrev pub two : Log
two = (gated, true) ∷ (scanned_result, false) ∷ []

first-appended : append archive none gated true ≡ ok (pos 1, one_line)
unfolding get_or fields_of read logged_rows
first-appended = append-Log archive none [] gated true refl first-Persists

one-History : History archive one_line one
one-History = History.grown (pos 1) gated true History.fresh first-appended

pub one-Represents : Represents archive one_line one
one-Represents = History-Represents archive one_line one one-History (first-Persists, tt)

second-appended : append archive one_line scanned_result false ≡ ok (pos 2, two_lines)
unfolding get_or fields_of
second-appended =
    append-Log archive one_line one scanned_result false one-Represents.rows second-Persists

two-History : History archive two_lines two
two-History = History.grown (pos 2) scanned_result false one-History second-appended

History-Represents_example : Represents archive two_lines two
History-Represents_example =
    History-Represents archive two_lines two two-History (first-Persists, (second-Persists, tt))

assemble-History_example : assemble (read_for_subject archive two_lines) essay ≡ (
    if is_empty (logged_entries digest two)
    then raise (vcr_error "no stored check-results for subject digest")
    else ok (record { subject = essay; checks = logged_entries digest two; vcr_version = "0.2" }))
assemble-History_example =
    assemble-History archive two_lines two essay two-History (first-Persists, (second-Persists, tt))

unreadable_line_example :
    (read archive (some ("row 1" ∷ "{" ∷ "row 2" ∷ [])) ≡ raise json_decode_error)
    × ((r : CheckResult) (durable : Bool)
        → append archive (some ("row 1" ∷ "{" ∷ "row 2" ∷ [])) r durable ≡ raise json_decode_error)
    × ((d : String)
        → read_for_subject archive (some ("row 1" ∷ "{" ∷ "row 2" ∷ [])) d
          ≡ raise json_decode_error)
    × ((subject : Subject)
        → assemble (read_for_subject archive (some ("row 1" ∷ "{" ∷ "row 2" ∷ []))) subject
          ≡ raise json_decode_error)
unfolding read strip is_space read_line
unreadable_line_example =
    unreadable_line archive ("row 1" ∷ []) "{" ("row 2" ∷ []) _ json_decode_error
      one-Represents.rows refl refl

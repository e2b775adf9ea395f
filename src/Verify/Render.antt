-- ===== src/Verify/Render.antt =====
-- verify.py `VerificationReport.render`.
use mathlib.Core.List.{append_assoc}
use text.Mathlib.TextLemmas
use checkseal.Common.{
  String, ◌<>◌, Bool, true, false, not, List, [], ◌∷◌, ◌++◌, Option, none, some, ◌≡◌, refl, sym,
  subst, if◌then◌else◌,
}
use checkseal.Common.Int.{pos}
use checkseal.Common.Text.{nonempty, rsplit_last, lacks, rsplit_last-append}
use checkseal.Json.{int}
use checkseal.Platform.{Platform}
use checkseal.Verify.Report.{
  EntryFinding, finding_ok, VerificationReport, authentic, checks_passed, passes,
}

-- `" ({self.identity})" if self.identity else ""`
abbrev pub identity_suffix : Option String → String
identity_suffix none = ""
identity_suffix (some identity) = if nonempty identity then " (" <> identity <> ")" else ""

-- `flag`
abbrev pub flag_of : EntryFinding → String
flag_of e = if finding_ok e then "ok" else if not e.result_ok then "check FAILED" else "UNTRUSTED"

abbrev pub mode_of : Bool → String
mode_of authentic_only =
    if authentic_only then " (authenticity only; check results not gated)" else ""

-- The last of the lines.
unfoldable pub verdict_line : Bool → VerificationReport → String
verdict_line authentic_only r =
    (if passes authentic_only r then "VERDICT: PASS" else "VERDICT: FAIL") <> mode_of authentic_only

-- The four lines above those of the entries.
unfoldable pub header_lines : VerificationReport → List String
header_lines r =
    ("seal tier: " <> r.tier)
    ∷ ("[1] subject digest: "
        <> (if r.subject_digest_ok then "OK" else "MISMATCH")
        <> " - "
        <> r.subject_reason)
    ∷ ("    signature:      "
        <> (if r.signature_ok then "OK" else "INVALID")
        <> " - "
        <> r.signature_reason
        <> identity_suffix r.identity)
    ∷ ("[2] freshness:      "
        <> (if r.freshness_ok then "OK" else "FAILED")
        <> " - "
        <> r.freshness_reason)
    ∷ []

-- `"\n".join(lines)`
unfoldable pub join_lines : List String → String
join_lines [] = ""
join_lines (line ∷ []) = line
join_lines (line ∷ line' ∷ lines) = line <> "\n" <> join_lines (line' ∷ lines)

-- The line above the verdict.
unfoldable pub summary_line : VerificationReport → String
summary_line r =
    "authentic: "
    <> (if authentic r then "yes" else "NO")
    <> "  |  checks passed: "
    <> (if checks_passed r then "yes" else "NO")

module _ (os : Platform) where
  -- The three lines of each entry.
  unfoldable pub entry_lines : List EntryFinding → List String
  entry_lines [] = []
  entry_lines (e ∷ es) =
      ("  - "
        <> e.check_id
        <> ": result="
        <> e.result
        <> " floor="
        <> os.text_of_value (int (pos e.trust_floor))
        <> " ("
        <> e.trust_floor_label
        <> ") ["
        <> flag_of e
        <> "]")
      ∷ ("      [3] re-exec: " <> e.reexecution)
      ∷ ("      [4] proof:   " <> e.enforced_proof)
      ∷ entry_lines es

  -- `render`
  unfoldable pub render : Bool → VerificationReport → String
  render authentic_only r = join_lines (
      header_lines r
      ++ (entry_lines r.entries ++ (summary_line r ∷ verdict_line authentic_only r ∷ [])))

verdict_line-lacks :
    (authentic_only : Bool) (r : VerificationReport)
    → lacks 10 (verdict_line authentic_only r) ≡ true
unfolding verdict_line lacks
verdict_line-lacks authentic_only r = verdict (passes authentic_only r) authentic_only
  where
    verdict :
        (passed authentic_only : Bool)
        → lacks 10 ((if passed then "VERDICT: PASS" else "VERDICT: FAIL") <> mode_of authentic_only)
          ≡ true
    verdict true true = refl
    verdict true false = refl
    verdict false true = refl
    verdict false false = refl

-- The last of some lines stands after the last line break, if it has none itself.
join_lines-last :
    (line : String) (lines : List String) (last : String)
    → lacks 10 last ≡ true
    → rsplit_last 10 (join_lines (line ∷ (lines ++ (last ∷ [])))) ≡ last
unfolding join_lines
join_lines-last line lines last h = after line lines
  where
    rest :
        (line : String) (lines : List String)
        → (before : String) × (join_lines (line ∷ (lines ++ (last ∷ []))) ≡ before <> "\n" <> last)
    rest line [] = (line, refl)
    rest line (line' ∷ lines) =
        let (before, e) = rest line' lines in
        (
          line <> ("\n" <> before),
          rw
              (
                e,
                TextLemmas.append_assoc line ("\n" <> before) ("\n" <> last),
                TextLemmas.append_assoc "\n" before ("\n" <> last),
              )
              refl,
        )

    after :
        (line : String) (lines : List String)
        → rsplit_last 10 (join_lines (line ∷ (lines ++ (last ∷ [])))) ≡ last
    after line lines =
        let (before, e) = rest line lines in rw (e) (rsplit_last-append 10 before "\n" last refl h)

module _ (os : Platform) (authentic_only : Bool) (r : VerificationReport) where
  -- The last line of a rendered report is the verdict, and says PASS exactly if the report passes,
  -- whatever texts its findings hold, line breaks among them.
  pub render-verdict : rsplit_last 10 (render os authentic_only r) ≡ (
      (if passes authentic_only r then "VERDICT: PASS" else "VERDICT: FAIL")
      <> (if authentic_only then " (authenticity only; check results not gated)" else ""))
  unfolding render header_lines verdict_line
  render-verdict =
      let verdict = verdict_line authentic_only r in
      let entries = entry_lines os r.entries in
      let body = λ (tail : List String). join_lines (header_lines r ++ tail) in
      let split : entries ++ (summary_line r ∷ verdict ∷ [])
          ≡ (entries ++ (summary_line r ∷ [])) ++ (verdict ∷ []) =
        sym (append_assoc entries (summary_line r ∷ []) (verdict ∷ [])) in
      subst (λ tail. rsplit_last 10 (body tail) ≡ verdict) (sym split)
        (join_lines-last _ (_ ∷ _ ∷ _ ∷ (entries ++ (summary_line r ∷ []))) verdict
          (verdict_line-lacks authentic_only r))

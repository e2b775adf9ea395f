-- ===== src/Tests/CommandTests.antt =====
-- __main__.py: a skill that is scanned, sealed and verified.
use checkseal.Common.{
  ℕ, ◌≡◌, ◌≢◌, ◌<>◌, refl, sym, true, false, String, Bool, [], ◌∷◌, ◌==◌, ◌||◌, ◌++◌, Option, none,
  some, str_eq, if◌then◌else◌, List, all_of,
}
use checkseal.Common.Int.{pos}
use checkseal.Common.Text.{
  strip, is_space, lower, lower_char, starts_with, all_chars, is_hex, length,
}
use checkseal.Model.Fields.{str_field, within, sha256_field, is_sha256}
use checkseal.Model.Enums.{of_value, find_member}
use checkseal.AgentTooling.{validate_agent_tooling_profile}
use checkseal.Profile.{validate_n1_profile}
use checkseal.Trust.{check_invariant_e1}
use checkseal.JsonUtils.{insert, plain_json}
use checkseal.Bundle.{canonical_manifest, manifest_from, add_entry, add_file, key_of, as_posix}
use checkseal.Common.Outcome.{Outcome, ok}
use checkseal.Json.{Json, int, get_or, fields_of, text_of, as_dict, as_list, contains}
use checkseal.Json.Sorted.{sort_json}
use checkseal.Model.CheckEntry.{CheckEntry}
use checkseal.Model.Subject
use checkseal.Model.Subject.{Subject}
use checkseal.Statement.{build_statement}
use checkseal.Platform.{Platform, Bytes}
use checkseal.Digest.{canonical_bytes}
use checkseal.Store.{CheckResult, result_to_jsonable, row_of}
use checkseal.Store.Laws.{IsWellFormed}
use checkseal.Store.Refinement.{Log, Persists, Represents, History, History-Represents}
use checkseal.Skillscan.{
  BundlePath, SkillscanSeed, seed_from_report, parse_report, validate_report_check, scan_result,
  bind_bundle, bundle_identity, derive_subject, scan_entry,
}
use checkseal.Cli.Seed.{make_seed}
use checkseal.Cli.Commands.{Save}
use checkseal.Cli.Skillscan.{Shelf, SkillscanArgs, cmd_seal_skillscan}
use checkseal.Cli.Skillscan.Laws.{
  scan_log, cmd_seal_skillscan-Represents, cmd_seal_skillscan-refuses,
}
use checkseal.Tests.Data.{skill, scan_check}
use checkseal.Tests.ModelTests.{digest-is_sha256}
use checkseal.Tests.StoreTests.{member_of, name_in}
use checkseal.Tests.BundleTests.{tree, report, seed, nfc}
use checkseal.Tests.World.{world, scheme, written_envelope}

-- What the scan found, as an entry.
abbrev pub found : CheckEntry
found = record scan_check { evidence = record scan_check.evidence { uri = none } }

abbrev pub found_result : CheckResult
found_result = record { subject = skill; entry = found }

abbrev pub found_log : Log
found_log = (found_result, true) ∷ []

abbrev line_or_envelope : Json → String
line_or_envelope (int _) = "row"
line_or_envelope _ = "envelope"

-- The texts of a row, of a result, of the statement, of the seal and of the report.
abbrev parsed : String → Outcome Json
parsed text =
    if str_eq text "row"
    then ok (sort_json (row_of (pos 1) "skill-demo" found_result true))
    else if str_eq text "skill-demo"
    then ok (sort_json (result_to_jsonable found_result))
    else if str_eq text "statement"
    then ok (sort_json (build_statement seed.predicate))
    else if str_eq text "envelope"
    then ok written_envelope
    else ok report

abbrev decoded : Bytes → Outcome String
decoded [] = ok ""
decoded (b ∷ bs) =
    if b == 98 then ok "report" else if b == 2 then ok "skill-demo" else ok "statement"

abbrev pub bench : Platform
bench = record (world seed.predicate report) {
  parse_json = parsed;
  dump_json = λ v. if str_eq (name_in v) "skill-demo" then "skill-demo" else "statement";
  dump_ascii = λ v. line_or_envelope (member_of "id" v);
  encode_utf8 = λ s. if str_eq s "skill-demo" then 2 ∷ [] else 97 ∷ [];
  decode_utf8 = decoded;
}

abbrev pub save : Save
save path content = ok tt

pub found-IsWellFormed : IsWellFormed found_result
unfolding checkseal.Model.Fields.within checkseal.Common.Text.length
    checkseal.Model.CheckId.valid_check_id
found-IsWellFormed = record {
  subject = record { digest = digest-is_sha256; name = refl };
  entry = record {
    check = record { id = refl; config_ref = digest-is_sha256 };
    verdict = record { proof = tt };
    evidence = record { digest = digest-is_sha256 };
    runtime = record { env_digest = tt };
  };
}

pub found-Persists : Persists bench 1 found_result true
unfolding canonical_bytes result_to_jsonable Subject.to_jsonable get_or fields_of text_of strip
    is_space
found-Persists = record {
  decodes = record { well_formed = found-IsWellFormed; payload = refl };
  utf8 = refl;
  printed = refl;
  row = refl;
}

none-Represents : Represents bench none []
none-Represents = History-Represents bench none [] History.fresh tt

abbrev scan_args : SkillscanArgs
scan_args = record {
  report = "report.json";
  manifest_out = some "manifest.json";
  key = none;
  out = none;
  authority = "agent";
  runner = "fleet";
}

abbrev empty_shelf : Shelf
empty_shelf = record { store = none; written = [] }

made : make_seed bench nfc "agent" "fleet" (BundlePath.directory tree) (98 ∷ []) ≡ ok seed
unfolding make_seed of_value find_member seed_from_report parse_report as_dict plain_json str_field
    text_of get_or insert within sha256_field is_sha256 lower strip is_space lower_char as_list
    validate_report_check scan_result validate_agent_tooling_profile starts_with bind_bundle
    bundle_identity derive_subject scan_entry check_invariant_e1 validate_n1_profile all_chars
    is_hex length canonical_manifest manifest_from add_entry add_file contains key_of as_posix
    canonical_bytes fields_of
made = refl

cmd_seal_skillscan-Represents_example :
    Represents bench
      (cmd_seal_skillscan bench save nfc scheme scan_args
        (BundlePath.directory tree)
        empty_shelf).0.store
      ([] ++ scan_log skill seed.predicate.checks)
cmd_seal_skillscan-Represents_example =
    cmd_seal_skillscan-Represents bench save nfc scheme scan_args (BundlePath.directory tree)
      empty_shelf [] (98 ∷ []) seed refl refl made none-Represents (found-Persists, tt)

unmade :
    (content : Bytes) (seed' : SkillscanSeed)
    → ◌≡◌ {A = Outcome Bytes} (ok (98 ∷ [])) (ok content)
    → make_seed bench nfc "nobody" "fleet" (BundlePath.directory tree) content ≢ ok seed'
unfolding make_seed of_value find_member
unmade content seed' e h = cc

cmd_seal_skillscan-refuses_example :
    ((cmd_seal_skillscan bench save nfc scheme
        (record scan_args { authority = "nobody" })
        (BundlePath.directory tree)
        empty_shelf).0
      ≡ empty_shelf)
    × ((cmd_seal_skillscan bench save nfc scheme
          (record scan_args { authority = "nobody" })
          (BundlePath.directory tree)
          empty_shelf).1
        ≢ ok 0)
cmd_seal_skillscan-refuses_example =
    cmd_seal_skillscan-refuses bench save nfc scheme (record scan_args { authority = "nobody" })
      (BundlePath.directory tree) empty_shelf unmade

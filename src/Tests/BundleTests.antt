-- ===== src/Tests/BundleTests.antt =====
-- bundle.py and skillscan.py at a concrete skill.
use checkseal.Common.{◌≡◌, refl, true, false, String, [], ◌∷◌, none, some, All, List}
use checkseal.Common.Outcome.{ok}
use checkseal.Common.Text.{
  lower, strip, is_space, lower_char, starts_with, all_chars, is_hex, length,
}
use checkseal.Json.{
  Json, Fields, str, arr, obj, item, no_items, field, no_fields, contains, get_or, text_of, as_dict,
  as_list,
}
use checkseal.JsonUtils.{insert, plain_json}
use checkseal.Model.Fields.{str_field, within, sha256_field, is_sha256}
use checkseal.AgentTooling.{validate_agent_tooling_profile}
use checkseal.Profile.{validate_n1_profile}
use checkseal.Trust.{check_invariant_e1}
use checkseal.Model.Enums.{Authority, Runner}
use checkseal.Platform.{Platform}
use checkseal.Digest.{canonical_bytes}
use checkseal.Bundle.{
  TreeEntry, canonical_manifest, has_fields, manifest_from, add_entry, add_file, key_of, as_posix,
}
use checkseal.Bundle.Listed.{IsListed}
use checkseal.Bundle.Laws.{IsCovered, canonical_manifest-IsCovered}
use checkseal.Skillscan.{
  BundlePath, SkillscanSeed, seed_from_report, parse_report, validate_report_check, scan_result,
  bind_bundle, bundle_identity, derive_subject, scan_entry,
}
use checkseal.Skillscan.Laws.{IsSeed, seed_from_report-IsSeed}
use checkseal.Tests.Data.{digest, machine, skill, scan_check}

abbrev pub nfc : String → String
nfc s = s

abbrev pub tree : List TreeEntry
tree =
    record { parts = ".git" ∷ "HEAD" ∷ []; is_symlink = false; is_file = true; read = ok (1 ∷ []) }
    ∷ record { parts = "SKILL.md" ∷ []; is_symlink = false; is_file = true; read = ok (2 ∷ []) }
    ∷ record { parts = "scripts" ∷ []; is_symlink = false; is_file = false; read = ok [] }
    ∷ record {
      parts = "scripts" ∷ "run.sh" ∷ [];
      is_symlink = false;
      is_file = true;
      read = ok (3 ∷ []);
    }
    ∷ []

tree-manifest : canonical_manifest machine nfc tree ≡ ok (97 ∷ [], digest)
unfolding canonical_manifest manifest_from add_entry add_file contains insert key_of as_posix
    canonical_bytes
tree-manifest = refl

canonical_manifest-IsCovered_example :
    (manifest : Fields) × (97 ∷ [] ≡ canonical_bytes machine (obj manifest))
    × (digest ≡ machine.sha256_hex (97 ∷ []))
    × (has_fields manifest ≡ true)
    × All (IsCovered machine nfc manifest) tree
    × ((k : String) → contains k manifest ≡ true → IsListed machine nfc k tree)
canonical_manifest-IsCovered_example =
    canonical_manifest-IsCovered machine nfc tree {raw = 97 ∷ []} {hex = digest} tree-manifest

-- A symlink that is named like an excluded directory is passed over.
linked_git :
    canonical_manifest machine nfc
      (record { parts = ".git" ∷ []; is_symlink = true; is_file = false; read = ok [] } ∷ tree)
    ≡ ok (97 ∷ [], digest)
unfolding canonical_manifest manifest_from add_entry add_file contains insert key_of as_posix
    canonical_bytes
linked_git = refl

abbrev pub report : Json
report = obj (
    field "schema" (str "skillscan-report/v1") (
      field "scanner" (str "demo-scanner") (
        field "scanner_version" (str "0.3") (
          field "ran_at" (str "2026-08-24T00:00:00Z") (
            field "subject"
              (obj (
                field "kind" (str "skill_bundle") (
                  field "name" (str "skill-demo") (
                    field "digest" (str digest) (
                      field "media_type" (str "application/vnd.checkseal.bundle-manifest+json")
                        no_fields)))))
              (field "ruleset" (obj (field "config_sha256" (str digest) no_fields)) (
                field "checks"
                  (arr (
                    item
                      (obj (
                        field "id" (str "scan/prompt-injection")
                          (field "result" (str "fail") no_fields)))
                      no_items))
                  no_fields)))))))

abbrev scanner : Platform
scanner = record machine { parse_json = λ _. ok report }

abbrev pub seed : SkillscanSeed
seed = record {
  predicate = record {
    subject = skill;
    checks = record scan_check { evidence = record scan_check.evidence { uri = none } } ∷ [];
    vcr_version = "0.2";
  };
  report_digest = digest;
  manifest_bytes = some (97 ∷ []);
}

seeded :
    seed_from_report scanner nfc (5 ∷ []) (BundlePath.directory tree) Authority.agent Runner.fleet
    ≡ ok seed
unfolding seed_from_report parse_report as_dict plain_json str_field text_of get_or insert within
    sha256_field is_sha256 lower strip is_space lower_char as_list validate_report_check scan_result
    validate_agent_tooling_profile starts_with bind_bundle bundle_identity derive_subject scan_entry
    check_invariant_e1 validate_n1_profile all_chars is_hex length canonical_manifest manifest_from
    add_entry add_file contains key_of as_posix canonical_bytes
seeded = refl

seed_from_report-IsSeed_example :
    IsSeed scanner nfc (5 ∷ []) (BundlePath.directory tree) Authority.agent Runner.fleet seed
seed_from_report-IsSeed_example =
    seed_from_report-IsSeed scanner nfc (5 ∷ []) (BundlePath.directory tree) Authority.agent
      Runner.fleet {seed = seed} seeded

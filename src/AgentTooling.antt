-- ===== src/AgentTooling.antt =====
-- profile_agent_tooling.py: the agent-tooling profile v0.1.
pub mod Laws
use checkseal.Common.{
  String, Bool, true, false, not, List, [], ◌∷◌, ◌&&◌, ◌||◌, Option, none, some, str_eq, is_some,
  if◌then◌else◌,
}
use checkseal.Common.Text.{starts_with}
use checkseal.Common.Outcome.{Outcome, ok, raise, vcr_error, ◌>>=◌, ◌>>◌, require}
use checkseal.Model.Enums.{SubjectKind, CheckKind, Result, Grade, value, subject_kind_enum}
use checkseal.Model.CheckEntry.{CheckEntry}
use checkseal.Model.Predicate.{Predicate}
use checkseal.Trust.{is_enforced, is_grade_a, is_grade_b}
use checkseal.Profile.{each, validate_n1_profile}

abbrev pub bundle_manifest_media_type : String
bundle_manifest_media_type = "application/vnd.checkseal.bundle-manifest+json"

abbrev pub mcpb_media_type : String
mcpb_media_type = "application/vnd.mcpb+zip"

-- `media_type in {…}`, which `None` is not
has_tooling_media_type : Option String → Bool
has_tooling_media_type none = false
has_tooling_media_type (some t) = str_eq t bundle_manifest_media_type || str_eq t mcpb_media_type

-- `kind in (SKILL_BUNDLE, MCP_SERVER)`
abbrev pub is_tooling_kind : String → Bool
is_tooling_kind kind =
    str_eq kind (value SubjectKind.skill_bundle) || str_eq kind (value SubjectKind.mcp_server)

unfoldable pub is_agent_tooling_subject : String → Option String → Bool
unfolding has_tooling_media_type
is_agent_tooling_subject kind media_type = is_tooling_kind kind || has_tooling_media_type media_type

-- `kind in _SUBJECT_KINDS`
abbrev pub is_subject_kind : String → Bool
is_subject_kind kind = is_tooling_kind kind || str_eq kind (value SubjectKind.artifact)

abbrev pub is_review : CheckKind → Bool
is_review CheckKind.review = true
is_review _ = false

-- `result in (PASS, FAIL, ERROR)`
abbrev pub is_scan_result : Result → Bool
is_scan_result Result.pass = true
is_scan_result Result.fail = true
is_scan_result Result.error = true
is_scan_result _ = false

-- The body of the loop over the checks.
unfoldable pub validate_scan_entry : CheckEntry → Outcome (Unit {0})
validate_scan_entry entry = do
  require (not (starts_with entry.check.id "runtime/")) "agent-tooling: reserved namespace"
  require (starts_with entry.check.id "scan/") "agent-tooling: outside the scan/ namespace"
  require (is_review entry.check.kind) "agent-tooling: must be kind 'review'"
  require (is_some entry.check.config_ref) "agent-tooling: no config_ref"
  require (not (is_enforced entry.verdict.enforced)) "agent-tooling: claims 'enforced'"
  require (is_scan_result entry.verdict.result) "agent-tooling: result"
  require (is_grade_a entry.evidence.grade || is_grade_b entry.evidence.grade)
      "agent-tooling: grade"

unfoldable pub validate_agent_tooling_profile : Bool → Predicate → Outcome (Unit {0})
unfolding validate_scan_entry
validate_agent_tooling_profile is_public predicate = do
  require (is_subject_kind predicate.subject.kind) "agent-tooling: subject.kind"
  require (is_some predicate.subject.media_type) "agent-tooling: subject.mediaType is mandatory"
  each validate_scan_entry predicate.checks
  validate_n1_profile is_public predicate

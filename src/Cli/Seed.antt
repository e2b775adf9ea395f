-- ===== src/Cli/Seed.antt =====
-- __main__.py `_cmd_seal_skillscan`: the statements under `try`.
use checkseal.Common.{String, false}
use checkseal.Common.Outcome.{Outcome, ok, ◌>>=◌, ◌>>◌}
use checkseal.Model.Enums.{Authority, Runner, of_value, authority_enum, runner_enum}
use checkseal.AgentTooling.{validate_agent_tooling_profile}
use checkseal.Platform.{Platform, Bytes}
use checkseal.Skillscan.{SkillscanSeed, BundlePath, seed_from_report}

unfoldable pub make_seed :
    Platform → (String → String) → String → String → BundlePath → Bytes → Outcome SkillscanSeed
make_seed os nfc authority runner bundle report_bytes = do
  let authority_of : Outcome Authority = of_value authority
  let runner_of : Outcome Runner = of_value runner
  a ← authority_of
  r ← runner_of
  seed ← seed_from_report os nfc report_bytes bundle a r
  validate_agent_tooling_profile false seed.predicate
  ok seed

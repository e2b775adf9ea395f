-- ===== src/Tests.antt =====
-- Concrete data, runs of the definitions on it, and the theorems at concrete inputs.
mod Data
mod ModelTests
mod RuleTests
mod VerifyTests
mod KeylessTests
mod GatedTests
mod SealTests
mod EnvelopeTests
mod World
mod LifecycleTests
mod JudgeTests
mod LedgerTests
mod CliTests
mod CommandTests
mod VerifyCommandTests
mod VerifyKeylessTests
mod StoreTests
mod BundleTests

-- ===== src/Model.antt =====
-- model.py
pub mod Enums
pub mod Fields
pub mod CheckId
pub mod Subject
pub mod Digest
pub mod Check
pub mod EnforcedProof
pub mod Verdict
pub mod Evidence
pub mod Runtime
pub mod Provenance
pub mod CheckEntry
pub mod Predicate
pub mod Unordered
pub mod Distinct

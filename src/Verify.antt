-- ===== src/Verify.antt =====
-- verify.py: the verifier contract.
pub mod Report
pub mod Entries
pub mod Local
pub mod Freshness
pub mod Keyless
pub mod Render

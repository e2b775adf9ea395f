-- ===== src/Lib.antt =====
-- CheckSeal: signed check receipts, and the verifier that decides whether to trust them.
--
-- A producer groups check results over one subject into a predicate (a VCR record), wraps it in an
-- in-toto Statement, and signs the Statement in a DSSE envelope. A verifier loads the envelope,
-- decodes and validates all of it as untrusted content, compares the digest of the live subject,
-- checks the signature, and for each check runs E1, re-execution, and the resolution of the
-- enforcement proof. The report of all that decides the exit code.
--
-- The files, and the code they model (paths from the root of the repository):
--   Model, Model/*            src/checkseal/model.py: one file per record, with `to_jsonable`,
--                             `from_jsonable` and the well-formedness that decoding guarantees;
--                             Model/Enums the string enums, Model/Fields the guards, Model/CheckId
--                             `_valid_check_id` and Model/CheckId/Regex its regular expression
--   Trust                     src/checkseal/trust.py
--   Statement                 src/checkseal/statement.py
--   JsonUtils                 src/checkseal/json_utils.py
--   Profile, AgentTooling     src/checkseal/profile.py and profile_agent_tooling.py
--   HbResolve                 src/checkseal/hbresolve.py; HbResolve/Early the early returns of
--                             `resolve_enforced_proof`, HbResolve/Report its part on the report
--   Dsse, Dsse/Pae            src/checkseal/dsse.py
--   Sign, Sign/Local          src/checkseal/sign/base.py and sign/local.py
--   Sign/KeyFile              `write_private_pem` of src/checkseal/sign/local.py
--   Sign/Keyless              `sign_statement_keyless` of src/checkseal/sign/keyless.py
--   Digest, Seal              src/checkseal/digest.py and seal.py; Seal/Verifies follows a seal from
--                             the key to the verdict
--   Store, Store/*            src/checkseal/store.py; Store/Refinement relates the file to the log of
--                             what was appended
--   Ledger, Ledger/*          src/checkseal/vlstore.py; Ledger/Agreement compares the two stores
--   Bundle, Skillscan         src/checkseal/bundle.py and skillscan.py
--   Operantj, Operantj/*      src/checkseal/operantj.py; Operantj/Sealed follows a receipt from the
--                             file to the verdict on its seal
--   Verify/Report             the classes `EntryFinding` and `VerificationReport` of
--                             src/checkseal/verify.py, and the exit decision
--   Verify/Entries            `_verify_entries`, `_entry_finding` and `_fail_finding` of verify.py
--   Verify/Local              `load_envelope`, `_check_subject`, `_verify_signature_local` and
--                             `verify_local_seal` of verify.py
--   Verify/Freshness          `_freshness` of verify.py
--   Verify/Keyless            `verify_keyless_seal` of verify.py, and `verify_bundle_keyless` of
--                             src/checkseal/sign/keyless.py
--   Verify/Render             `VerificationReport.render` of verify.py
--   Verify/*/Genuine, Verify/*/Complete, Verify/*/Gated
--                             what a passing report stands for, when a report passes, and what is
--                             left undone for a seal that is not what it should be
--   Verify/Local/Tooling      the agent-tooling profile in a verification
--   Cli/Loader, Cli/Atomic    `_build_loader`, `_build_reexecutor` and `_write_atomic` of
--                             src/checkseal/__main__.py, with `default_report_loader` of hbresolve.py
--   Cli/Commands              `_cmd_seal`, `_cmd_verify`, `_cmd_seal_keyless`, `_cmd_verify_keyless`
--                             and `main` of __main__.py
--   Cli/Seed, Cli/Skillscan   `_cmd_seal_skillscan` of __main__.py
--   Common, Json, Platform    shared helpers, JSON values as Python sees them, and what comes from
--                             outside the repository; Json/Sorted is `sort_keys=True`
--   Tests                     concrete inputs, and the theorems applied to them
--
-- How the model corresponds to the code:
--   - An exception is a value of `Outcome`: `raise` with the class the code distinguishes. A guard
--     (`_require`, or an if that raises) is `require`, in the order of the code. A message keeps its
--     fixed text, not the interpolated parts.
--   - A JSON object is the list of its members in order. `d.get(k)` is `get`, which gives `null` for
--     a missing name as Python gives None.
--   - A float is a fraction (a numerator over a positive denominator), an infinity or NaN: comparing
--     one with 0, 1/2 and 1 is exact.
--   - Texts are lists of characters without lone surrogates, so encoding one does not fail. `lower`
--     is the ASCII one: it stands only before the test for hexadecimal digits, and no character
--     outside ASCII has a lowercase form made of these digits alone.
--   - The clock of the freshness bound is a finite time since the epoch, as a fraction of seconds. The
--     `integratedTime` of a bundle is below 2^1024: from there on, subtracting it from a float raises
--     OverflowError.
--   - A text is parsed as JSON before its names are compared: one that names a member twice and has a
--     syntax error after that raises the syntax error here, and `VCRError` in the code.
--   - `write_private_pem` runs on files with permission bits: creating a file gives it the bits that
--     the umask leaves, `fchmod` sets them, and writing keeps them.
--   - A callback (the report loader, the re-executor, the signature verifier) is a function that may
--     raise; it is called at most once for each entry or signature, so what it returns is a function
--     of its argument.
--   - Hashing, UTF-8, base64, JSON reading and printing, and the file system are the fields of
--     `Platform`, a parameter of which nothing is assumed unless a theorem says so.
--   - The `cryptography`, `sigstore` and `verification_ledger` packages are records of the functions
--     that the code calls (`Cryptography`, `Sigstore` and `DsseVerifier`, `LedgerPackage`), and
--     `Shell` is what the commands use of the operating system besides files. Nothing is assumed of
--     them unless a theorem says so.
--   - The store's file is `none` or the list of its lines. `append` returns the file afterwards. Lines
--     are complete and decoded; a store is written by one process at a time.
--   - `seal-skillscan` changes a store and writes files: its statements are functions of a `Shelf`,
--     which holds the store and the files written so far, also where a later statement raises.
--   - `_write_atomic` runs on a disk, a function from paths to contents, and keeps the states that it
--     goes through. How its system calls end is a parameter. `write_private_pem` is modelled alike.
--     The commands see only whether the write returned.
--   - Every recursion is on a list, a text or a JSON value, but `decimal_from`, whose fuel is more
--     than the number, and so more than its count of digits.
--
-- Not modelled: the parsing of arguments, `keygen` with the generation of keys and the writing of a
-- public one, what is printed but for the text of a report, the package's exports, the example
-- scripts, and the JavaScript verifier, which is a second implementation in another language.

pub mod Common
pub mod Json
pub mod Model
pub mod Trust
pub mod Statement
pub mod Profile
pub mod AgentTooling
pub mod Platform
pub mod JsonUtils
pub mod Sign
pub mod Digest
pub mod Dsse
pub mod Seal
pub mod Store
pub mod Ledger
pub mod Operantj
pub mod Bundle
pub mod Skillscan
pub mod HbResolve
pub mod Verify
pub mod Cli
pub mod Tests

-- ===== src/Cli/Commands/Lifecycle.antt =====
-- From the store to exit code 0: what `checkseal seal` writes, `checkseal verify` accepts.
use checkseal.Common.{
  ℕ, ◌≡◌, refl, sym, ap, ◌∙◌, ◌||◌, String, ◌<>◌, Bool, true, false, Option, none, some, arith, All,
  all_of, is_empty, List, [], ◌∷◌, str_eq, if◌then◌else◌, Bool-cases, inl, inr,
}
use checkseal.Common.Outcome.{Outcome, ok, raise, ◌>>=◌, ◌>>◌, >>=-eq-ok, require}
use checkseal.Model.Enums.{SubjectKind, of_value, subject_kind_enum, is_ok}
use checkseal.Model.Subject
use checkseal.Model.Subject.{Subject}
use checkseal.Model.CheckEntry
use checkseal.Model.CheckEntry.{CheckEntry}
use checkseal.Model.Predicate
use checkseal.Model.Predicate.{Predicate}
use checkseal.Platform.{Platform, Bytes}
use checkseal.Digest.{sha256_file}
use checkseal.Dsse.{envelope_to_jsonable}
use checkseal.Dsse.RoundTrip.{DecodesBase64}
use checkseal.Sign.Local.{
  Cryptography, LocalKeySigner, LocalKeyVerifier, new_signer, verifier_of, load_private_signer,
  load_public_verifier, AcceptsSigned,
}
use checkseal.HbResolve.{ReportLoader}
use checkseal.Store.{Lines, read_for_subject}
use checkseal.Store.Refinement.{Log, Represents, logged_entries, read_for_subject-Represents}
use checkseal.Store.Refinement
use checkseal.Seal.{assemble, to_intoto_jsonl, validate_profiles}
use checkseal.Seal.Verifies.{signature_of, sign_local-verifies, sign_local-local_signer}
use checkseal.Verify.Entries.{ReExecutor}
use checkseal.Verify.Entries.Complete.{IsVouched}
use checkseal.Verify.Local.Complete.{IsWritten, Decodes, minted}
use checkseal.Cli.Loader.{Shell}
use checkseal.Cli.Commands.{VerifyArgs, SealArgs, Save, main, subject_of_args, cmd_seal, cmd_verify}
use checkseal.Cli.Commands.Laws.{IsEquipped}

-- The predicate of a subject in a log.
abbrev pub logged_predicate : Subject → Log → Predicate
logged_predicate subject log = record {
  subject = subject;
  checks = logged_entries subject.digest log;
  vcr_version = "0.2";
}

module _ (os : Platform) {PrivateKey PublicKey : Type 0}
    (crypto : Cryptography PrivateKey PublicKey) where
  load_private_signer-key :
      (path : String) {s : LocalKeySigner PrivateKey}
      → load_private_signer os crypto path ≡ ok s
      → (key : PrivateKey) × (new_signer os crypto key ≡ ok s)
  unfolding load_private_signer
  load_private_signer-key path {s} h =
      let (done, a, h1) =
        >>=-eq-ok (require crypto.installed "T1 signing needs the 'cryptography' package") _ h in
      let (pem, b, h2) = >>=-eq-ok (os.read_file path) _ h1 in
      let (loaded, c, h3) = >>=-eq-ok (crypto.load_pem_private_key pem) _ h2 in found loaded h3
    where
      found :
          (loaded : Option PrivateKey)
          → (elim loaded [
            | none ↦
                raise (checkseal.Common.Outcome.vcr_error "key file is not an Ed25519 private key")
            | some k ↦ new_signer os crypto k
          ])
            ≡ ok s
          → (key : PrivateKey) × (new_signer os crypto key ≡ ok s)
      found none e = cc
      found (some k) e = (k, e)

  -- The verifying commands read back what the sealing command signed and wrote: the packages undo
  -- what they did, and the file of the seal begins with the seal's line.
  pub record ReadsBack (s : LocalKeySigner PrivateKey) (p : Predicate) (path : String)
      : Type 0 where
    pub accepts : AcceptsSigned os crypto
    pub base64 : DecodesBase64 os
    pub signed : is_empty (signature_of os crypto s p).sig ≡ false
    pub decodes : Decodes os p
    pub written : IsWritten os path (minted os p (signature_of os crypto s p))

  subject_of_args-live :
      (args : SealArgs) {subject : Subject}
      → subject_of_args os args ≡ ok subject
      → (content : Bytes) × (os.read_file args.subject ≡ ok content)
        × (os.sha256_hex content ≡ subject.digest)
  unfolding subject_of_args
  subject_of_args-live args {subject} h =
      let kind_of : Outcome SubjectKind = of_value args.kind in
      let (kind, a, h1) = >>=-eq-ok kind_of _ h in
      let (digest, b, h2) = >>=-eq-ok (sha256_file os args.subject) _ h1 in
      let (content, c, d) =
        >>=-eq-ok (os.read_file args.subject) (λ content. ok (os.sha256_hex content)) b in
      (content, c, ground arith)

  logged_entries-IsWellFormed :
      (digest : String) (log : Log)
      → All (λ e. Refinement.Decodes os e.0) log
      → All CheckEntry.IsWellFormed (logged_entries digest log)
  unfolding logged_entries
  logged_entries-IsWellFormed digest [] h = tt
  logged_entries-IsWellFormed digest ((r, durable) ∷ log) h =
      elim (Bool-cases (str_eq r.subject.digest digest)) [
        | inl same ↦ rw (same) (h.0.well_formed.entry, logged_entries-IsWellFormed digest log h.1)
        | inr other ↦ rw (other) (logged_entries-IsWellFormed digest log h.1)
      ]

  assembled :
      (store : Lines) (log : Log) (subject : Subject)
      → Represents os store log
      → is_empty (logged_entries subject.digest log) ≡ false
      → assemble (read_for_subject os store) subject ≡ ok (logged_predicate subject log)
  unfolding assemble
  assembled store log subject h some_check =
      rw (read_for_subject-Represents os store log subject.digest h, some_check) refl

  module _ (shell : Shell) (save : Save) (store : Lines) (log : Log) (key : String)
      (args : SealArgs) (verify_args : VerifyArgs) (subject : Subject)
      (s : LocalKeySigner PrivateKey) (v : LocalKeyVerifier PublicKey)
      (reexecutor : Option ReExecutor) (loader : Option ReportLoader) where
    -- Where a file holds a log with results for the subject that satisfy the profiles, the public key
    -- file is that of the private key, the packages read back what they wrote, and every entry is
    -- vouched for, `checkseal seal` writes the seal of the log's entries for the subject, and
    -- `checkseal verify` of that seal against the same file exits with 0 if only authenticity was
    -- asked for or no entry has a failing result, and with 1 otherwise.
    pub cmd_seal-cmd_verify :
        Represents os store log
        → subject_of_args os args ≡ ok subject
        → Subject.IsWellFormed subject
        → is_empty (logged_entries subject.digest log) ≡ false
        → validate_profiles false (logged_predicate subject log) ≡ ok tt
        → load_private_signer os crypto key ≡ ok s
        → load_public_verifier os crypto verify_args.pubkey ≡ ok v
        → verifier_of os crypto s ≡ ok v
        → IsEquipped os shell verify_args.reexec verify_args.proof_root reexecutor loader
        → verify_args.subject ≡ args.subject
        → ReadsBack s (logged_predicate subject log) verify_args.seal
        → All (IsVouched os reexecutor loader) (logged_entries subject.digest log)
        → (cmd_seal os crypto save store key args ≡ (
            save args.out (
              os.encode_utf8 (
                os.dump_ascii (
                  envelope_to_jsonable os (
                    minted os
                      (logged_predicate subject log)
                      (signature_of os crypto s (logged_predicate subject log))))
                <> "\n"))
            >> ok 0))
          × (main (cmd_verify os crypto shell verify_args)
              ≡ ok (
                  if verify_args.authentic_only
                    || all_of (λ e. is_ok e.verdict.result) (logged_entries subject.digest log)
                  then 0
                  else 1))
    unfolding cmd_seal cmd_verify main to_intoto_jsonl
    cmd_seal-cmd_verify represents described well_formed some_check profiles private public matching
          equipped same back vouched =
        let p = logged_predicate subject log in
        let (secret, made) = load_private_signer-key key private in
        let (content, live, bound) = subject_of_args-live args described in
        let w : Predicate.IsWellFormed p = record {
          subject = well_formed;
          checks = logged_entries-IsWellFormed subject.digest log represents.results;
          some_check = some_check;
          version = refl;
        } in
        let (seal, report, a, b, c, d) =
          sign_local-verifies os crypto secret s v p verify_args.seal verify_args.subject content
            reexecutor loader made matching back.accepts back.base64 back.signed w profiles
            back.decodes back.written (rw (same) live) bound vouched in
        (
          rw
              (
                described,
                assembled store log subject represents some_check,
                private,
                sign_local-local_signer os crypto s p profiles,
              )
              refl,
          rw (public, equipped.reexecution, equipped.loading, c, d verify_args.authentic_only) refl,
        )

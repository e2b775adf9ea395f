-- ===== src/Operantj/Sealed.antt =====
-- A judge's receipt, from the file to the verdict on its seal.
use checkseal.Common.{
  String, true, false, ◌≡◌, sym, List, Option, none, some, arith, All-mono, all_of, is_empty,
}
use checkseal.Common.Outcome.{ok}
use checkseal.Model.Enums.{Runner, is_ok}
use checkseal.Model.Fields.{is_sha256}
use checkseal.Model.Subject.{Subject}
use checkseal.Model.CheckEntry.{CheckEntry}
use checkseal.Platform.{Platform, Bytes}
use checkseal.Sign.Local.{
  Cryptography, LocalKeySigner, LocalKeyVerifier, new_signer, verifier_of, local_signer,
  local_verify, AcceptsSigned,
}
use checkseal.Dsse.RoundTrip.{DecodesBase64}
use checkseal.Seal.{Seal, sign_local}
use checkseal.Seal.Verifies.{signature_of, sign_local-verifies}
use checkseal.Verify.Report.{VerificationReport, passes}
use checkseal.Verify.Entries.Complete.{IsVouched, unenforced-IsVouched}
use checkseal.Verify.Local.{verify_local_seal}
use checkseal.Verify.Local.Complete.{IsWritten, Decodes, minted}
use checkseal.Operantj.{ingest_operant_j_receipt}
use checkseal.Operantj.Laws.{IsJudgeEntry}
use checkseal.Operantj.Ingest.{judge_predicate, ingest_operant_j_receipt-IsSitting}

judge-IsVouched :
    (os : Platform) (runner : Runner) (e : CheckEntry)
    → IsJudgeEntry runner e
    → IsVouched os none none e
judge-IsVouched os runner e h =
    unenforced-IsVouched os none none e (λ x. ground (arith, h.enforced)) h.enforced_proof
      (λ g. ground (arith, h.grade))

-- Where base64, JSON and the signature scheme undo what they did, and SHA-256 yields 64 lowercase
-- hexadecimal digits: a receipt that is ingested is sealed by a signer with a key, and if the text of
-- the seal is written to a file, it verifies with the signer's verifier against the receipt itself,
-- with neither a re-executor nor a loader: the report is authentic, and passes as a whole exactly if
-- no ruling is a failing result.
pub ingest_operant_j_receipt-verifies :
    (os : Platform) {PrivateKey PublicKey : Type 0} (crypto : Cryptography PrivateKey PublicKey)
    (key : PrivateKey) (s : LocalKeySigner PrivateKey) (v : LocalKeyVerifier PublicKey)
    (receipt path : String) (name : Option String) (runner : Runner) (subject : Subject)
    (entries : List CheckEntry)
    → ((content : Bytes) → is_sha256 (os.sha256_hex content) ≡ true)
    → ingest_operant_j_receipt os receipt name runner ≡ ok (subject, entries)
    → new_signer os crypto key ≡ ok s
    → verifier_of os crypto s ≡ ok v
    → AcceptsSigned os crypto
    → DecodesBase64 os
    → is_empty (signature_of os crypto s (judge_predicate subject entries)).sig ≡ false
    → Decodes os (judge_predicate subject entries)
    → IsWritten os path (
        minted os
          (judge_predicate subject entries)
          (signature_of os crypto s (judge_predicate subject entries)))
    → (seal : Seal) × (report : VerificationReport) × (sign_local os
          (judge_predicate subject entries)
          (local_signer os crypto s)
          false
        ≡ ok seal)
      × (verify_local_seal os path (local_verify os crypto v) (some receipt) none none none
          ≡ ok report)
      × (passes true report ≡ true)
      × (passes false report ≡ all_of (λ e. is_ok e.verdict.result) entries)
ingest_operant_j_receipt-verifies os crypto key s v receipt path name runner subject entries hashes
      ingested made ver accepts base64 signed dec written =
    let h =
      ingest_operant_j_receipt-IsSitting os receipt name runner {subject = subject}
        {entries = entries} hashes ingested in
    let (seal, report, a, b, c, d) =
      sign_local-verifies os crypto key s v (judge_predicate subject entries) path receipt h.content
        none none made ver accepts base64 signed h.well_formed (h.sealable false) dec written h.read
        (sym h.digest) (All-mono (judge-IsVouched os runner) entries h.judged) in
    (seal, report, a, c, d true, d false)

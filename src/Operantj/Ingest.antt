-- ===== src/Operantj/Ingest.antt =====
-- What ingesting a receipt gives: a predicate that the sealer takes, and that claims no enforcement.
use checkseal.Common.{
  subst, String, Bool, true, false, ◌≡◌, refl, ap, arith, Option, none, some, List, [], ◌∷◌,
  is_empty, All, All-mono,
}
use checkseal.Common.Outcome.{ok, ◌>>=◌, >>=-eq-ok, for_each, for_each-All, Each, for_each-Each}
use checkseal.Json.{Fields, obj, get, as_dict, get_or, str, unless_null, is_null}
use checkseal.Model.Enums.{Runner}
use checkseal.Model.Fields.{
  is_sha256, within, sha256_field-str, str_field-str, str_field-eq, parse_subject_kind-str,
}
use checkseal.Model.Subject
use checkseal.Model.Subject.{Subject}
use checkseal.Model.CheckEntry
use checkseal.Model.CheckEntry.{CheckEntry}
use checkseal.Model.Predicate
use checkseal.Model.Predicate.{Predicate}
use checkseal.Trust.{check_invariant_e1, trust_floor, binding_rank}
use checkseal.Platform.{Platform, Bytes}
use checkseal.Digest.{sha256_file}
use checkseal.Profile.Laws.{Conforms, validate_n1_profile_iff}
use checkseal.AgentTooling.{is_agent_tooling_subject}
use checkseal.Seal.{validate_profiles}
use checkseal.Operantj.{
  entry_from_vcr_v01, read_receipt, subject_json, receipt_subject, recorded_name, name_or,
  ingest_operant_j_receipt,
}
use checkseal.Operantj.Laws.{IsJudgeEntry, IsObserved, Translates, entry_from_vcr_v01-Translates}

entry-IsJudgeEntry :
    (runner : Runner) (vcr : Fields) (e : CheckEntry)
    → entry_from_vcr_v01 runner vcr ≡ ok e
    → IsJudgeEntry runner e
entry-IsJudgeEntry runner vcr e h =
    let (type, (pred, body, observed, translates)) = entry_from_vcr_v01-Translates runner vcr h in
    translates.entry

-- The subject of a file with the digest.
abbrev subject_of : String → String → Subject
subject_of name hex = record {
  kind = "artifact";
  digest = hex;
  name = name;
  media_type = some "application/x-operant-j-vcr+jsonl";
}

subject_json-eq :
    (name hex : String) {s : Subject}
    → is_sha256 hex ≡ true
    → Subject.from_jsonable (subject_json name hex) ≡ ok s
    → s ≡ subject_of name hex
unfolding Subject.from_jsonable as_dict get_or unless_null is_null
subject_json-eq name hex {s} p h = ground (
  arith,
  sha256_field-str hex "subject.digest" p,
  parse_subject_kind-str "artifact",
  str_field-str none "application/x-operant-j-vcr+jsonl" "subject.mediaType"
      (unfold within in refl),
  str_field-eq (some 256) (str name) "subject.name" {s = s.name},
)

-- What the subject of a receipt says of the file.
receipt_subject-eq :
    (os : Platform) (path name : String) {s : Subject}
    → ((content : Bytes) → is_sha256 (os.sha256_hex content) ≡ true)
    → receipt_subject os path name ≡ ok s
    → (content : Bytes) × (os.read_file path ≡ ok content)
      × (s ≡ subject_of name (os.sha256_hex content))
      × Subject.IsWellFormed s
unfolding receipt_subject
receipt_subject-eq os path name {s} hashes h =
    let (hex, a, b) =
      >>=-eq-ok (sha256_file os path) (λ hex. Subject.from_jsonable (subject_json name hex)) h in
    let (content, p, c) = >>=-eq-ok (os.read_file path) (λ content. ok (os.sha256_hex content)) a in
    let q = subst (λ x. Subject.from_jsonable (subject_json name x) ≡ ok s) {x = hex} (cc c) b in
    (
      content,
      p,
      subject_json-eq name (os.sha256_hex content) (hashes content) q,
      Subject.from_jsonable-IsWellFormed (subject_json name (os.sha256_hex content)) q,
    )

-- A judge's entries over a subject.
abbrev pub judge_predicate : Subject → List CheckEntry → Predicate
judge_predicate subject entries = record {
  subject = subject;
  checks = entries;
  vcr_version = "0.2";
}

judge-Conforms :
    (runner : Runner) (is_public : Bool) (e : CheckEntry)
    → IsJudgeEntry runner e
    → Conforms is_public e × (trust_floor e ≡ 0) × CheckEntry.IsWellFormed e
unfolding trust_floor binding_rank check_invariant_e1
judge-Conforms runner is_public e h = (
  record {
    e1 = rw (h.enforced) refl;
    grade_c = λ c. ground (arith, h.grade);
    proof = λ _ enforced. ground (arith, h.enforced);
  },
  ground (arith, h.enforced),
  h.well_formed,
)

nonempty-for_each :
    (runner : Runner) (records : List Fields) {entries : List CheckEntry}
    → is_empty records ≡ false
    → for_each (entry_from_vcr_v01 runner) records ≡ ok entries
    → is_empty entries ≡ false
nonempty-for_each runner [] p h = cc
nonempty-for_each runner (r ∷ records) {entries} p h = ground arith

read_receipt-nonempty :
    (os : Platform) (path : String) {records : List Fields}
    → read_receipt os path ≡ ok records
    → is_empty records ≡ false
unfolding read_receipt
read_receipt-nonempty os path {records} h = ground arith

validate_profiles-judge :
    (is_public : Bool) (name hex : String) (entries : List CheckEntry)
    → is_empty entries ≡ false
    → All (Conforms is_public) entries
    → validate_profiles is_public (judge_predicate (subject_of name hex) entries) ≡ ok tt
unfolding validate_profiles is_agent_tooling_subject
validate_profiles-judge is_public name hex entries some_check conforms =
    rw
      ((validate_n1_profile_iff is_public (judge_predicate (subject_of name hex) entries)).1
        (some_check, conforms))
      refl

-- An entry says what a record of the receipt says, and the record claims no enforcement.
abbrev pub IsTranslation : Runner → Fields → CheckEntry → Type 0
IsTranslation runner vcr e =
    (pred : Fields) × (get "predicate" vcr ≡ obj pred) × IsObserved pred × Translates runner pred e

-- What a receipt binds and claims.
pub record IsSitting (os : Platform) (path : String) (runner : Runner) (subject : Subject)
    (entries : List CheckEntry) : Type 0 where
  pub content : Bytes
  pub read : os.read_file path ≡ ok content
  pub kind : subject.kind ≡ "artifact"
  pub digest : subject.digest ≡ os.sha256_hex content
  pub well_formed : Predicate.IsWellFormed (judge_predicate subject entries)
  pub records : List Fields
  pub receipt : read_receipt os path ≡ ok records
  pub translated : Each (IsTranslation runner) records entries
  pub judged : All (IsJudgeEntry runner) entries
  pub no_enforcement : All (λ e. trust_floor e ≡ 0) entries
  pub sealable :
      (is_public : Bool) → validate_profiles is_public (judge_predicate subject entries) ≡ ok tt

sitting :
    (os : Platform) (path name : String) (runner : Runner) (content : Bytes) (s : Subject)
    (entries : List CheckEntry) (records : List Fields)
    → read_receipt os path ≡ ok records
    → Each (IsTranslation runner) records entries
    → os.read_file path ≡ ok content
    → s ≡ subject_of name (os.sha256_hex content)
    → Subject.IsWellFormed s
    → is_empty entries ≡ false
    → All (IsJudgeEntry runner) entries
    → IsSitting os path runner s entries
sitting os path name runner content s entries records receipt translated p e w some_check judged =
    record {
      records = records;
      receipt = receipt;
      translated = translated;
      content = content;
      read = p;
      kind = ap Subject.kind e;
      digest = ap Subject.digest e;
      well_formed = record {
        subject = w;
        checks = All-mono (λ x h. (judge-Conforms runner false x h).2) entries judged;
        some_check = some_check;
        version = refl;
      };
      judged = judged;
      no_enforcement = All-mono (λ x h. (judge-Conforms runner false x h).1) entries judged;
      sealable = λ is_public. rw (e) (
          validate_profiles-judge is_public name (os.sha256_hex content) entries some_check
            (All-mono (λ x h. (judge-Conforms runner is_public x h).0) entries judged));
    }

-- Where SHA-256 yields 64 lowercase hexadecimal digits, a receipt that is ingested makes a
-- well-formed predicate that the sealer accepts, public or not, bound to the digest of the
-- receipt's bytes; it has a check for each record, in their order, that says what the record says;
-- no record claims enforcement, and the trust floor of every check is 0.
pub ingest_operant_j_receipt-IsSitting :
    (os : Platform) (path : String) (name : Option String) (runner : Runner) {subject : Subject}
    {entries : List CheckEntry}
    → ((content : Bytes) → is_sha256 (os.sha256_hex content) ≡ true)
    → ingest_operant_j_receipt os path name runner ≡ ok (subject, entries)
    → IsSitting os path runner subject entries
unfolding ingest_operant_j_receipt
ingest_operant_j_receipt-IsSitting os path name runner {subject} {entries} hashes h =
    let (records, a, b) =
      >>=-eq-ok (read_receipt os path)
        (λ records. for_each (entry_from_vcr_v01 runner) records >>= λ es.
          receipt_subject os path (name_or name (recorded_name os records)) >>= λ s. ok (s, es))
        h in
    let (es, c, d) =
      >>=-eq-ok (for_each (entry_from_vcr_v01 runner) records)
        (λ es.
          receipt_subject os path (name_or name (recorded_name os records)) >>= λ s. ok (s, es))
        b in
    let (s, p, q) =
      >>=-eq-ok (receipt_subject os path (name_or name (recorded_name os records)))
        (λ s. ok (s, es)) d in
    let (content, read, eq, w) =
      receipt_subject-eq os path (name_or name (recorded_name os records)) hashes p in
    let made =
      sitting os path (name_or name (recorded_name os records)) runner content s es records a
        (for_each-Each (IsTranslation runner) (entry_from_vcr_v01 runner)
          (λ vcr e h. (entry_from_vcr_v01-Translates runner vcr h).1) records c)
        read eq w (nonempty-for_each runner records (read_receipt-nonempty os path a) c)
        (for_each-All (IsJudgeEntry runner) (entry_from_vcr_v01 runner) (entry-IsJudgeEntry runner)
          records c) in
    subst (λ (r : Subject × List CheckEntry). IsSitting os path runner r.0 r.1) {x = (s, es)} (cc q)
      made

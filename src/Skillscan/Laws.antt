-- ===== src/Skillscan/Laws.antt =====
-- What a seed claims.
use checkseal.Common.{
  String, true, false, ◌≡◌, subst, ap, sym, ◌∙◌, refl, arith, Option, none, some, List, [], ◌∷◌,
  All, str_eq, eq_iff,
}
use checkseal.Common.Outcome.{ok, ◌>>=◌, ◌>>◌, require, >>=-eq-ok, for_each, Each, for_each-Each}
use checkseal.Json.{Json, Fields, Items, str, obj, get, as_dict, as_list, to_list, as_dict-eq-ok}
use checkseal.Model.Enums.{
  Runner, Authority, CheckKind, Enforced, EvidenceKind, Grade, Result, value, result_enum,
}
use checkseal.Model.Fields.{str_field, within, sha256_field, str_field-eq, str_field-within}
use checkseal.Model.Subject.{Subject}
use checkseal.Model.CheckEntry.{CheckEntry}
use checkseal.AgentTooling.{validate_agent_tooling_profile}
use checkseal.Model.Predicate.{Predicate, vcr_version_0_2}
use checkseal.Seal.{validate_profiles}
use checkseal.Trust.{trust_floor, binding_rank}
use checkseal.Platform.{Platform, Bytes}
use checkseal.Skillscan.{
  SkillscanSeed, BundlePath, scan_result, result_or_raise, scan_entry, parse_report,
  bundle_identity, derive_subject, bind_bundle, seed_from_report, is_first_class,
}

-- What an entry of a scan claims, against the report's check that it comes from.
pub record IsScanEntry (report : Fields) (config_ref report_digest : String) (authority : Authority)
    (runner : Runner) (v : Json) (e : CheckEntry) : Type 0 where
  pub check : Fields
  pub object : v ≡ obj check
  pub id : get "id" check ≡ str e.check.id
  pub version : get "scanner_version" report ≡ str e.check.version
  pub result : get "result" check ≡ str (value e.verdict.result)
  pub ran_at : get "ran_at" report ≡ str e.runtime.ran_at
  pub kind : e.check.kind ≡ CheckKind.review
  pub rules : e.check.config_ref ≡ some config_ref
  pub observed : e.verdict.enforced ≡ Enforced.observed
  pub no_proof : e.verdict.enforced_proof ≡ none
  pub evidence : e.evidence.kind ≡ EvidenceKind.log_digest
  pub grade : e.evidence.grade ≡ Grade.grade_b
  pub digest : e.evidence.digest ≡ report_digest
  pub asserted_by : e.provenance.authority ≡ authority
  pub run_by : e.runtime.runner ≡ runner

scan_result-value : (s : String) {r : Result} → result_or_raise (scan_result s) ≡ ok r → s ≡ value r
unfolding scan_result
scan_result-value s {r} h = ground (arith, eq_iff s "pass", eq_iff s "fail", eq_iff s "error")

module _ (report : Fields) (config_ref report_digest : String) (authority : Authority)
    (runner : Runner) where
  scan_entry-IsScanEntry :
      (v : Json) (e : CheckEntry)
      → scan_entry report config_ref report_digest authority runner v ≡ ok e
      → IsScanEntry report config_ref report_digest authority runner v e
  unfolding scan_entry
  scan_entry-IsScanEntry v e h =
      let (c, a, h1) = >>=-eq-ok (as_dict v "report check: must be an object") _ h in
      let (id, b, h2) = >>=-eq-ok (str_field none (get "id" c) "report check.id") _ h1 in
      let (version, d, h3) =
        >>=-eq-ok (str_field none (get "scanner_version" report) "report.scanner_version") _ h2 in
      let (text, f, h4) = >>=-eq-ok (str_field none (get "result" c) "report check.result") _ h3 in
      let (result, g, h5) = >>=-eq-ok (result_or_raise (scan_result text)) _ h4 in
      let (ran_at, i, h6) = >>=-eq-ok (str_field none (get "ran_at" report) "report.ran_at") _ h5 in
      record {
        check = c;
        object = as_dict-eq-ok v "report check: must be an object" a;
        id = str_field-eq none (get "id" c) "report check.id" b ∙ ap str (ground arith);
        version =
            str_field-eq none (get "scanner_version" report) "report.scanner_version" d
            ∙ ap str (ground arith);
        result =
            str_field-eq none (get "result" c) "report check.result" f
            ∙ ap str (scan_result-value text g ∙ ap (λ (r : Result). value r) (ground arith));
        ran_at = str_field-eq none (get "ran_at" report) "report.ran_at" i ∙ ap str (ground arith);
        kind = ground arith;
        rules = ground arith;
        observed = ground arith;
        no_proof = ground arith;
        evidence = ground arith;
        grade = ground arith;
        digest = ground arith;
        asserted_by = ground arith;
        run_by = ground arith;
      }

module _ (os : Platform) (nfc : String → String) where
  bind_bundle-live :
      (bundle : BundlePath) (kind name claimed media_type : String)
      {subject : Subject × Option Bytes}
      → bind_bundle os nfc bundle kind name claimed media_type ≡ ok subject
      → (subject.0.kind ≡ kind)
        × (subject.0.name ≡ name)
        × (subject.0.digest ≡ claimed)
        × (subject.0.media_type ≡ some media_type)
        × (bundle_identity os nfc media_type bundle ≡ ok (subject.1, subject.0.digest))
  unfolding bind_bundle
  bind_bundle-live bundle kind name claimed media_type {subject} h =
      let (identity, a, b) =
        >>=-eq-ok (bundle_identity os nfc media_type bundle)
          (λ (identity : Option Bytes × String).
            require (str_eq identity.1 claimed) "REFUSED: the scanned bytes are not these bytes"
            >>= λ _. ok (
              record {
                kind = kind;
                digest = identity.1;
                name = name;
                media_type = some media_type;
              },
              identity.0,
            ))
          h in
      let bound : str_eq identity.1 claimed ≡ true = ground arith in
      let digest : identity.1 ≡ claimed = (eq_iff identity.1 claimed).0 bound in
      (ground arith, ground arith, ground arith, ground arith, ground arith)

  -- The subject of a seed says what the report says of its subject, and was recomputed.
  pub record IsBound (report : Fields) (bundle : BundlePath) (subject : Subject)
      (manifest : Option Bytes) : Type 0 where
    pub claim : Fields
    pub claimed : as_dict (get "subject" report) "report.subject: must be an object" ≡ ok claim
    pub kind : get "kind" claim ≡ str subject.kind
    pub first_class : is_first_class subject.kind ≡ true
    pub name : get "name" claim ≡ str subject.name
    pub short : within (some 256) subject.name ≡ true
    pub digest : sha256_field (get "digest" claim) "report.subject.digest" ≡ ok subject.digest
    pub media_type : String
    pub typed : subject.media_type ≡ some media_type
    pub live : bundle_identity os nfc media_type bundle ≡ ok (manifest, subject.digest)

  derive_subject-IsBound :
      (report : Fields) (bundle : BundlePath) {subject : Subject × Option Bytes}
      → derive_subject os nfc report bundle ≡ ok subject
      → IsBound report bundle subject.0 subject.1
  unfolding derive_subject
  derive_subject-IsBound report bundle {subject} h =
      let (rsub, a, h1) =
        >>=-eq-ok (as_dict (get "subject" report) "report.subject: must be an object") _ h in
      let (kind, b, h2) = >>=-eq-ok (str_field none (get "kind" rsub) "report.subject.kind") _ h1 in
      let (checked, c, h3) =
        >>=-eq-ok
          (require (is_first_class kind)
            "report.subject.kind: new emissions use the first-class kinds")
          _ h2 in
      let (name, d, h4) =
        >>=-eq-ok (str_field (some 256) (get "name" rsub) "report.subject.name") _ h3 in
      let (claimed, e, h5) =
        >>=-eq-ok (sha256_field (get "digest" rsub) "report.subject.digest") _ h4 in
      let (media_type, f, h6) =
        >>=-eq-ok (str_field none (get "media_type" rsub) "report.subject.media_type") _ h5 in
      let (k, n, g, t, live) =
        bind_bundle-live bundle kind name claimed media_type {subject = subject} h6 in
      record {
        claim = rsub;
        claimed = a;
        kind = str_field-eq none (get "kind" rsub) "report.subject.kind" b ∙ ap str (sym k);
        first_class = rw (k) (ground arith);
        name = str_field-eq (some 256) (get "name" rsub) "report.subject.name" d ∙ ap str (sym n);
        short = rw (n) (str_field-within (some 256) (get "name" rsub) "report.subject.name" d);
        digest = e ∙ ap ok (sym g);
        media_type = media_type;
        typed = t;
        live = live;
      }

  -- What a seed says of the report and of the bundle.
  pub record IsSeed (report_bytes : Bytes) (bundle : BundlePath) (authority : Authority)
      (runner : Runner) (seed : SkillscanSeed) : Type 0 where
    pub report : Fields
    pub parsed : parse_report os nfc report_bytes ≡ ok report
    pub report_digest : seed.report_digest ≡ os.sha256_hex report_bytes
    pub subject : IsBound report bundle seed.predicate.subject seed.manifest_bytes
    pub rules : Fields
    pub ruled : as_dict (get "ruleset" report) "report.ruleset: must be an object" ≡ ok rules
    pub config_ref : String
    pub config :
        sha256_field (get "config_sha256" rules) "report.ruleset.config_sha256" ≡ ok config_ref
    pub checks : Items
    pub listed : as_list (get "checks" report) "report.checks: non-empty list" ≡ ok checks
    pub entries :
        Each
          (IsScanEntry report config_ref (os.sha256_hex report_bytes) authority runner)
          (to_list checks)
          seed.predicate.checks
    pub no_enforcement : All (λ e. trust_floor e ≡ 0) seed.predicate.checks
    pub sealable : validate_profiles false seed.predicate ≡ ok tt

  sealable-tooling :
      (p : Predicate)
      → validate_agent_tooling_profile false p ≡ ok tt
      → validate_profiles false p ≡ ok tt
  unfolding validate_profiles validate_agent_tooling_profile
  sealable-tooling p h = ground arith

  floors :
      (report : Fields) (config_ref digest : String) (authority : Authority) (runner : Runner)
      (vs : List Json) (es : List CheckEntry)
      → Each (IsScanEntry report config_ref digest authority runner) vs es
      → All (λ e. trust_floor e ≡ 0) es
  unfolding trust_floor binding_rank
  floors report config_ref digest authority runner [] [] h = tt
  floors report config_ref digest authority runner (v ∷ vs) (e ∷ es) h =
      (ground (arith, h.0.observed), floors report config_ref digest authority runner vs es h.1)
  floors report config_ref digest authority runner [] (e ∷ es) h = absurd h
  floors report config_ref digest authority runner (v ∷ vs) [] h = tt

  seed-validated :
      (p : Predicate) (digest : String) (manifest : Option Bytes) {seed : SkillscanSeed}
      → (validate_agent_tooling_profile false p
          >> ok (record { predicate = p; report_digest = digest; manifest_bytes = manifest }))
        ≡ ok seed
      → (validate_agent_tooling_profile false p ≡ ok tt)
        × (record { predicate = p; report_digest = digest; manifest_bytes = manifest } ≡ seed)
  seed-validated p digest manifest {seed} h =
      let (done, a, b) = >>=-eq-ok (validate_agent_tooling_profile false p) _ h in
      (ground arith, cc b)

  -- A seed is made only of a report that parses and a bundle whose recomputed identity is the one the
  -- report claims; its entries are the report's checks, in their order, as observations at grade B
  -- whose evidence is the digest of the exact report, with trust floor 0; and it satisfies the
  -- profiles of a seal that is not public.
  pub seed_from_report-IsSeed :
      (report_bytes : Bytes) (bundle : BundlePath) (authority : Authority) (runner : Runner)
      {seed : SkillscanSeed}
      → seed_from_report os nfc report_bytes bundle authority runner ≡ ok seed
      → IsSeed report_bytes bundle authority runner seed
  unfolding seed_from_report
  seed_from_report-IsSeed report_bytes bundle authority runner {seed} h =
      let (report, a, h1) = >>=-eq-ok (parse_report os nfc report_bytes) _ h in
      let (subject, b, h2) = >>=-eq-ok (derive_subject os nfc report bundle) _ h1 in
      let (rules, c, h3) =
        >>=-eq-ok (as_dict (get "ruleset" report) "report.ruleset: must be an object") _ h2 in
      let (config_ref, d, h4) =
        >>=-eq-ok (sha256_field (get "config_sha256" rules) "report.ruleset.config_sha256") _ h3 in
      let (checks, e, h5) =
        >>=-eq-ok (as_list (get "checks" report) "report.checks: non-empty list") _ h4 in
      let entry = scan_entry report config_ref (os.sha256_hex report_bytes) authority runner in
      let (entries, f, h6) = >>=-eq-ok (for_each entry (to_list checks)) _ h5 in
      let p : Predicate = record {
        subject = subject.0;
        checks = entries;
        vcr_version = vcr_version_0_2;
      } in
      let (profile, made) = seed-validated p (os.sha256_hex report_bytes) subject.1 h6 in
      let related =
        for_each-Each (IsScanEntry report config_ref (os.sha256_hex report_bytes) authority runner)
          entry
          (scan_entry-IsScanEntry report config_ref (os.sha256_hex report_bytes) authority runner)
          (to_list checks) f in
      subst (IsSeed report_bytes bundle authority runner) made (record {
        report = report;
        parsed = a;
        report_digest = refl;
        subject = derive_subject-IsBound report bundle b;
        rules = rules;
        ruled = c;
        config_ref = config_ref;
        config = d;
        checks = checks;
        listed = e;
        entries = related;
        no_enforcement =
            floors report config_ref (os.sha256_hex report_bytes) authority runner (to_list checks)
              entries related;
        sealable = sealable-tooling p profile;
      })

-- ===== src/Verify/Keyless/Complete.antt =====
-- From the OIDC token to the verdict: a seal that Sigstore signs verifies.
use checkseal.Common.{
  String, Bool, true, false, ◌||◌, ◌≡◌, refl, [], ◌∷◌, List, Option, none, some, arith, All, all_of,
}
use checkseal.Common.Int.{ℤ}
use checkseal.Common.Outcome.{ok, >>=-eq-ok}
use checkseal.Json.Sorted.{sort_json}
use checkseal.JsonUtils.{loads_unique_json}
use checkseal.JsonUtils.Sorted.{unique_json-sort_json}
use checkseal.Model.CheckEntry.{CheckEntry}
use checkseal.Model.Enums.{is_ok}
use checkseal.Model.Predicate.{Predicate, IsWellFormed}
use checkseal.Statement.{build_statement}
use checkseal.Statement.Laws.{parse_statement-build_statement}
use checkseal.Statement.Unordered.{parse_statement-sort_json, build_statement_distinct}
use checkseal.Platform.{Platform, Bytes}
use checkseal.Profile.{validate_n1_entry, validate_n1_profile, each}
use checkseal.AgentTooling.{validate_agent_tooling_profile}
use checkseal.Dsse.{payload_type_in_toto}
use checkseal.HbResolve.{ReportLoader}
use checkseal.Sign.{SigningTier}
use checkseal.Sign.Keyless.{Sigstore, raw_token, sign_statement_keyless}
use checkseal.Seal.{Seal, sign_keyless, validate_profiles}
use checkseal.Verify.Report.{VerificationReport, passes}
use checkseal.Verify.Entries.{ReExecutor, profile_of}
use checkseal.Verify.Entries.Complete.{IsVouched, verify_entries-vouched}
use checkseal.Verify.Freshness.{Moment, IsFresh, freshness}
use checkseal.Verify.Local.Complete.{check_subject-live}
use checkseal.Verify.Keyless.{
  DsseVerifier, verify_bundle_keyless, predicate_from_payload, keyless_report, verify_keyless_seal,
}

validate_n1_entry-public :
    (e : CheckEntry) → validate_n1_entry true e ≡ ok tt → validate_n1_entry false e ≡ ok tt
unfolding validate_n1_entry
validate_n1_entry-public e h = ground arith

each-public :
    (es : List CheckEntry)
    → each (validate_n1_entry true) es ≡ ok tt
    → each (validate_n1_entry false) es ≡ ok tt
unfolding each
each-public [] h = refl
each-public (e ∷ es) h =
    let (done, a, b) =
      >>=-eq-ok (validate_n1_entry true e) (λ _. each (validate_n1_entry true) es) h in
    rw (validate_n1_entry-public e a) (each-public es b)

-- What may be signed in public may be signed.
validate_n1_profile-public :
    (p : Predicate) → validate_n1_profile true p ≡ ok tt → validate_n1_profile false p ≡ ok tt
unfolding validate_n1_profile
validate_n1_profile-public p h = ground (arith, each-public p.checks)

validate_agent_tooling_profile-public :
    (p : Predicate)
    → validate_agent_tooling_profile true p ≡ ok tt
    → validate_agent_tooling_profile false p ≡ ok tt
unfolding validate_agent_tooling_profile
validate_agent_tooling_profile-public p h = ground (arith, validate_n1_profile-public p)

profile_of-public : (p : Predicate) → validate_profiles true p ≡ ok tt → profile_of p ≡ ok tt
unfolding validate_profiles profile_of
profile_of-public p h = ground (arith, validate_agent_tooling_profile-public p)

freshness-fresh :
    (os : Platform) (bundle_json : String) (max_age : Option ℤ) (now : Moment)
    → IsFresh os bundle_json max_age now
    → (reason : String) × (freshness os bundle_json max_age now ≡ ok (true, reason))
unfolding freshness
freshness-fresh os bundle_json none now h =
    ("Rekor inclusion verified; no freshness bound requested", refl)
freshness-fresh os bundle_json (some age) now (n, time, recent) = ("fresh", rw (time, recent) refl)

-- The payload that is signed: `json.dumps` escapes what is not ASCII, unlike the canonical bytes.
abbrev pub keyless_payload : Platform → Predicate → Bytes
keyless_payload os p = os.encode_utf8 (os.dump_ascii (build_statement p))

-- The payload decodes to the Statement, its members sorted.
pub record DecodesPayload (os : Platform) (p : Predicate) : Type 0 where
  pub text : os.decode_utf8 (keyless_payload os p) ≡ ok (os.dump_ascii (build_statement p))
  pub parsed :
      os.parse_json (os.dump_ascii (build_statement p)) ≡ ok (sort_json (build_statement p))

-- What Sigstore does with one Statement: with a token it signs it, and its verifier gives back the
-- payload that was signed.
pub record Signs (os : Platform) {Token : Type 0} (sigstore : Sigstore Token)
    (verify_dsse : DsseVerifier) (p : Predicate) (identity_token : Option String)
    (bundle identity issuer : String) : Type 0 where
  pub installed : sigstore.installed ≡ true
  pub raw : String
  pub token : Token
  pub has_token : raw_token os sigstore identity_token ≡ ok (some raw)
  pub is_token : sigstore.identity_token raw ≡ ok token
  pub signed : sigstore.sign_dsse (keyless_payload os p) token ≡ ok bundle
  pub accepted :
      verify_dsse bundle identity issuer ≡ ok (payload_type_in_toto, keyless_payload os p)

module _ (os : Platform) where
  pub predicate_from_payload-keyless :
      (p : Predicate)
      → IsWellFormed p
      → DecodesPayload os p
      → predicate_from_payload os (keyless_payload os p) ≡ ok p
  unfolding predicate_from_payload loads_unique_json
  predicate_from_payload-keyless p w h =
      rw
        (
          h.text,
          h.parsed,
          unique_json-sort_json (build_statement p) (build_statement_distinct p),
          parse_statement-sort_json (build_statement p),
        )
        (parse_statement-build_statement p w)

  -- Where Sigstore signs a Statement with the token and its verifier gives the payload back: if a
  -- well-formed predicate satisfies the profiles of a public seal, keyless signing gives the bundle;
  -- and if the subject's file is still the same, the log entry is as recent as requested, and every
  -- entry is vouched for, then verifying the bundle returns a report. It is authentic, and it passes
  -- as a whole exactly if no check has a failing result.
  pub sign_keyless-verifies :
      {Token : Type 0} (sigstore : Sigstore Token) (verify_dsse : DsseVerifier) (p : Predicate)
      (identity_token : Option String) (bundle identity issuer subject_path : String)
      (content : Bytes) (reexecutor : Option ReExecutor) (loader : Option ReportLoader)
      (max_age : Option ℤ) (now : Moment)
      → Signs os sigstore verify_dsse p identity_token bundle identity issuer
      → IsWellFormed p
      → validate_profiles true p ≡ ok tt
      → DecodesPayload os p
      → os.read_file subject_path ≡ ok content
      → os.sha256_hex content ≡ p.subject.digest
      → IsFresh os bundle max_age now
      → All (IsVouched os reexecutor loader) p.checks
      → (seal : Seal) × (report : VerificationReport) × (sign_keyless os
            (sign_statement_keyless os sigstore)
            p
            identity_token
          ≡ ok seal)
        × (seal.bundle_json ≡ some bundle)
        × (verify_keyless_seal os verify_dsse bundle identity issuer
              (some subject_path)
              none
              reexecutor
              loader
              max_age
              now
            ≡ ok report)
        × ((authentic_only : Bool)
            → passes authentic_only report
              ≡ (authentic_only || all_of (λ e. is_ok e.verdict.result) p.checks))
  unfolding sign_keyless sign_statement_keyless verify_keyless_seal verify_bundle_keyless passes
  sign_keyless-verifies sigstore verify_dsse p identity_token bundle identity issuer subject_path
        content reexecutor loader max_age now signs w profiles dec live bound fresh vouched =
      let (reason, a) = freshness-fresh os bundle max_age now fresh in
      let (fs, b, c, d) =
        verify_entries-vouched os reexecutor loader true p (profile_of-public p profiles) vouched in
      (
        record {
          tier = SigningTier.t2;
          statement = build_statement p;
          envelope = none;
          bundle_json = some bundle;
        },
        keyless_report (true, "live digest matches") (true, reason)
            (record {
              tier = SigningTier.t2;
              subject = identity;
              issuer = some issuer;
              attested_authority = true;
            })
            fs,
        rw (profiles, signs.installed, signs.has_token, signs.is_token, signs.signed) refl,
        refl,
        rw
            (
              signs.accepted,
              predicate_from_payload-keyless p w dec,
              check_subject-live os p subject_path content live bound,
              a,
              b,
            )
            refl,
        (λ authentic_only. ground (arith, c, d)),
      )

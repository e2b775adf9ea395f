-- ===== src/Model/Enums.antt =====
-- The `StrEnum` classes of model.py, with their values as texts.
use checkseal.Common.{
  String, Bool, true, false, List, [], ◌∷◌, ◌≡◌, refl, arith, str_eq, eq_iff, if◌then◌else◌,
}
use checkseal.Common.Outcome.{Outcome, ok, raise, value_error}

module _ {ℓ} {A : Type ℓ} (value : A → String) where
  -- The lookup of a member by its value, which raises `ValueError` if there is none.
  unfoldable pub find_member : List A → String → Outcome A
  find_member [] s = raise (value_error "is not a valid member")
  find_member (a ∷ members) s = if str_eq (value a) s then ok a else find_member members s

  value-find_member :
      (members : List A) (s : String) {a : A} → find_member members s ≡ ok a → value a ≡ s
  unfolding find_member
  value-find_member [] s h = cc
  value-find_member (b ∷ members) s {a} h =
      ground (arith, eq_iff (value b) s, value-find_member members s {a = a})

pub record StrEnum {ℓ} (A : Type ℓ) : Type ℓ where
  pub value_of : A → String
  pub members : List A
  pub found : (a : A) → find_member value_of members (value_of a) ≡ ok a

module _ {ℓ} {A : Type ℓ} ⦃e : StrEnum A⦄ where
  -- `a.value`
  abbrev pub value : A → String
  value = e.value_of

  -- `A(s)`
  unfoldable pub of_value : String → Outcome A
  of_value s = find_member e.value_of e.members s

  pub of_value-value : (a : A) → of_value (value a) ≡ ok a
  unfolding of_value
  of_value-value a = e.found a

  pub value-of_value : (s : String) {a : A} → of_value s ≡ ok a → value a ≡ s
  unfolding of_value
  value-of_value s h = value-find_member e.value_of e.members s h

pub data SubjectKind : Type 0 where
  artifact harness_config skill_bundle mcp_server : SubjectKind

abbrev subject_kind_value : SubjectKind → String
subject_kind_value SubjectKind.artifact = "artifact"
subject_kind_value SubjectKind.harness_config = "harness_config"
subject_kind_value SubjectKind.skill_bundle = "skill_bundle"
subject_kind_value SubjectKind.mcp_server = "mcp_server"

abbrev subject_kind_members : List SubjectKind
subject_kind_members =
    SubjectKind.artifact ∷ SubjectKind.harness_config ∷ SubjectKind.skill_bundle
    ∷ SubjectKind.mcp_server ∷ []

pub subject_kind_found :
    (a : SubjectKind)
    → find_member subject_kind_value subject_kind_members (subject_kind_value a) ≡ ok a
unfolding find_member
subject_kind_found SubjectKind.artifact = refl
subject_kind_found SubjectKind.harness_config = refl
subject_kind_found SubjectKind.skill_bundle = refl
subject_kind_found SubjectKind.mcp_server = refl

instance abbrev pub subject_kind_enum : StrEnum SubjectKind
subject_kind_enum = record {
  value_of = subject_kind_value;
  members = subject_kind_members;
  found = subject_kind_found;
}

pub data CheckKind : Type 0 where
  review guard human : CheckKind

abbrev check_kind_value : CheckKind → String
check_kind_value CheckKind.review = "review"
check_kind_value CheckKind.guard = "guard"
check_kind_value CheckKind.human = "human"

abbrev check_kind_members : List CheckKind
check_kind_members = CheckKind.review ∷ CheckKind.guard ∷ CheckKind.human ∷ []

pub check_kind_found :
    (a : CheckKind) → find_member check_kind_value check_kind_members (check_kind_value a) ≡ ok a
unfolding find_member
check_kind_found CheckKind.review = refl
check_kind_found CheckKind.guard = refl
check_kind_found CheckKind.human = refl

instance abbrev pub check_kind_enum : StrEnum CheckKind
check_kind_enum = record {
  value_of = check_kind_value;
  members = check_kind_members;
  found = check_kind_found;
}

pub data Result : Type 0 where
  pass fail over_blocked error skip na : Result

abbrev result_value : Result → String
result_value Result.pass = "pass"
result_value Result.fail = "fail"
result_value Result.over_blocked = "over_blocked"
result_value Result.error = "error"
result_value Result.skip = "skip"
result_value Result.na = "n/a"

abbrev result_members : List Result
result_members =
    Result.pass ∷ Result.fail ∷ Result.over_blocked ∷ Result.error ∷ Result.skip ∷ Result.na ∷ []

pub result_found : (a : Result) → find_member result_value result_members (result_value a) ≡ ok a
unfolding find_member
result_found Result.pass = refl
result_found Result.fail = refl
result_found Result.over_blocked = refl
result_found Result.error = refl
result_found Result.skip = refl
result_found Result.na = refl

instance abbrev pub result_enum : StrEnum Result
result_enum = record { value_of = result_value; members = result_members; found = result_found }

pub data Enforced : Type 0 where
  enforced advisory observed : Enforced

abbrev enforced_value : Enforced → String
enforced_value Enforced.enforced = "enforced"
enforced_value Enforced.advisory = "advisory"
enforced_value Enforced.observed = "observed"

abbrev enforced_members : List Enforced
enforced_members = Enforced.enforced ∷ Enforced.advisory ∷ Enforced.observed ∷ []

pub enforced_found :
    (a : Enforced) → find_member enforced_value enforced_members (enforced_value a) ≡ ok a
unfolding find_member
enforced_found Enforced.enforced = refl
enforced_found Enforced.advisory = refl
enforced_found Enforced.observed = refl

instance abbrev pub enforced_enum : StrEnum Enforced
enforced_enum = record {
  value_of = enforced_value;
  members = enforced_members;
  found = enforced_found;
}

pub data EvidenceKind : Type 0 where
  exit_code diff_digest log_digest transcript_digest reviewer_id : EvidenceKind

abbrev evidence_kind_value : EvidenceKind → String
evidence_kind_value EvidenceKind.exit_code = "exit-code"
evidence_kind_value EvidenceKind.diff_digest = "diff-digest"
evidence_kind_value EvidenceKind.log_digest = "log-digest"
evidence_kind_value EvidenceKind.transcript_digest = "transcript-digest"
evidence_kind_value EvidenceKind.reviewer_id = "reviewer-id"

abbrev evidence_kind_members : List EvidenceKind
evidence_kind_members =
    EvidenceKind.exit_code ∷ EvidenceKind.diff_digest ∷ EvidenceKind.log_digest
    ∷ EvidenceKind.transcript_digest ∷ EvidenceKind.reviewer_id ∷ []

pub evidence_kind_found :
    (a : EvidenceKind)
    → find_member evidence_kind_value evidence_kind_members (evidence_kind_value a) ≡ ok a
unfolding find_member
evidence_kind_found EvidenceKind.exit_code = refl
evidence_kind_found EvidenceKind.diff_digest = refl
evidence_kind_found EvidenceKind.log_digest = refl
evidence_kind_found EvidenceKind.transcript_digest = refl
evidence_kind_found EvidenceKind.reviewer_id = refl

instance abbrev pub evidence_kind_enum : StrEnum EvidenceKind
evidence_kind_enum = record {
  value_of = evidence_kind_value;
  members = evidence_kind_members;
  found = evidence_kind_found;
}

pub data Grade : Type 0 where
  grade_a grade_b grade_c : Grade

abbrev grade_value : Grade → String
grade_value Grade.grade_a = "A"
grade_value Grade.grade_b = "B"
grade_value Grade.grade_c = "C"

abbrev grade_members : List Grade
grade_members = Grade.grade_a ∷ Grade.grade_b ∷ Grade.grade_c ∷ []

pub grade_found : (a : Grade) → find_member grade_value grade_members (grade_value a) ≡ ok a
unfolding find_member
grade_found Grade.grade_a = refl
grade_found Grade.grade_b = refl
grade_found Grade.grade_c = refl

instance abbrev pub grade_enum : StrEnum Grade
grade_enum = record { value_of = grade_value; members = grade_members; found = grade_found }

pub data Authority : Type 0 where
  operator agent ingested : Authority

abbrev authority_value : Authority → String
authority_value Authority.operator = "operator"
authority_value Authority.agent = "agent"
authority_value Authority.ingested = "ingested"

abbrev authority_members : List Authority
authority_members = Authority.operator ∷ Authority.agent ∷ Authority.ingested ∷ []

pub authority_found :
    (a : Authority) → find_member authority_value authority_members (authority_value a) ≡ ok a
unfolding find_member
authority_found Authority.operator = refl
authority_found Authority.agent = refl
authority_found Authority.ingested = refl

instance abbrev pub authority_enum : StrEnum Authority
authority_enum = record {
  value_of = authority_value;
  members = authority_members;
  found = authority_found;
}

pub data Runner : Type 0 where
  fleet ci human : Runner

abbrev runner_value : Runner → String
runner_value Runner.fleet = "fleet"
runner_value Runner.ci = "ci"
runner_value Runner.human = "human"

abbrev runner_members : List Runner
runner_members = Runner.fleet ∷ Runner.ci ∷ Runner.human ∷ []

pub runner_found : (a : Runner) → find_member runner_value runner_members (runner_value a) ≡ ok a
unfolding find_member
runner_found Runner.fleet = refl
runner_found Runner.ci = refl
runner_found Runner.human = refl

instance abbrev pub runner_enum : StrEnum Runner
runner_enum = record { value_of = runner_value; members = runner_members; found = runner_found }

-- `Result.is_ok`
unfoldable pub is_ok : Result → Bool
is_ok Result.fail = false
is_ok Result.error = false
is_ok Result.over_blocked = false
is_ok _ = true

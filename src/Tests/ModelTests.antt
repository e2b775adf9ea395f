-- ===== src/Tests/ModelTests.antt =====
-- model.py and statement.py at concrete inputs.
use checkseal.Common.{◌≡◌, refl, true, false, ◌↔◌}
use checkseal.Common.Text.{length}
use checkseal.Common.Outcome.{ok}
use checkseal.Model.Fields.{is_sha256, within}
use checkseal.Model.CheckId.{valid_check_id}
use checkseal.Model.CheckId.Regex.{Reads, check_id_pattern, valid_check_id_iff}
use checkseal.Model.CheckEntry
use checkseal.Model.Predicate
use checkseal.Model.Predicate.{Predicate-round_trip, Predicate-accepted-IsWellFormed}
use checkseal.Statement.{parse_statement, build_statement}
use checkseal.Statement.Laws.{IsCoupled, parse_statement-build_statement, parse_statement-IsCoupled}
use checkseal.Tests.Data.{digest, sealed, one_gate, scanned, gate, scan_check}

pub digest-is_sha256 : is_sha256 digest ≡ true
unfolding is_sha256
digest-is_sha256 = refl

pub gate-IsWellFormed : CheckEntry.IsWellFormed gate
unfolding valid_check_id
gate-IsWellFormed = record {
  check = record { id = refl; config_ref = digest-is_sha256 };
  verdict = record { proof = record { sha256 = digest-is_sha256 } };
  evidence = record { digest = digest-is_sha256 };
  runtime = record { env_digest = digest-is_sha256 };
}

pub scan-IsWellFormed : CheckEntry.IsWellFormed scan_check
unfolding valid_check_id
scan-IsWellFormed = record {
  check = record { id = refl; config_ref = digest-is_sha256 };
  verdict = record { proof = tt };
  evidence = record { digest = digest-is_sha256 };
  runtime = record { env_digest = tt };
}

pub sealed-IsWellFormed : Predicate.IsWellFormed sealed
unfolding within length
sealed-IsWellFormed = record {
  subject = record { digest = digest-is_sha256; name = refl };
  checks = (gate-IsWellFormed, (scan-IsWellFormed, tt));
  some_check = refl;
  version = refl;
}

pub one_gate-IsWellFormed : Predicate.IsWellFormed one_gate
unfolding within length
one_gate-IsWellFormed = record {
  subject = record { digest = digest-is_sha256; name = refl };
  checks = (gate-IsWellFormed, tt);
  some_check = refl;
  version = refl;
}

pub scanned-IsWellFormed : Predicate.IsWellFormed scanned
unfolding within length
scanned-IsWellFormed = record {
  subject = record { digest = digest-is_sha256; name = refl };
  checks = (scan-IsWellFormed, tt);
  some_check = refl;
  version = refl;
}

sealed-round_trip : Predicate.from_jsonable (Predicate.to_jsonable sealed) ≡ ok sealed
sealed-round_trip = Predicate-round_trip sealed sealed-IsWellFormed

Predicate-accepted-IsWellFormed_example : Predicate.IsWellFormed sealed
Predicate-accepted-IsWellFormed_example =
    Predicate-accepted-IsWellFormed (Predicate.to_jsonable sealed) sealed-round_trip

parse_statement-build_statement_example : parse_statement (build_statement sealed) ≡ ok sealed
parse_statement-build_statement_example = parse_statement-build_statement sealed sealed-IsWellFormed

parse_statement-IsCoupled_example :
    IsCoupled (build_statement sealed) sealed × Predicate.IsWellFormed sealed
parse_statement-IsCoupled_example =
    parse_statement-IsCoupled (build_statement sealed)
      (parse_statement-build_statement sealed sealed-IsWellFormed)

valid_check_id_iff_example :
    (valid_check_id "guard/rm-rf" ≡ true) ↔ Reads check_id_pattern "guard/rm-rf" ""
valid_check_id_iff_example = valid_check_id_iff "guard/rm-rf"

-- A dash is refused in the first segment, and so is an empty segment.
dash_first : valid_check_id "rm-rf/guard" ≡ false
unfolding valid_check_id
dash_first = refl

empty_segment : valid_check_id "guard//rm" ≡ false
unfolding valid_check_id
empty_segment = refl

-- ===== src/Tests/LedgerTests.antt =====
-- vlstore.py at a ledger of two records, one of them of another producer.
use checkseal.Common.{true, false, String, [], ◌∷◌, List}
use checkseal.Common.Int.{pos}
use checkseal.Common.Outcome.{ok}
use checkseal.Model.Subject.{Subject}
use checkseal.Model.Subject
use checkseal.Ledger.{LedgerRecord, LedgerPackage}

-- The authority of `gated` is operator, which the package keeps as agent.
abbrev own_record : LedgerRecord
own_record = record {
  id = pos 7;
  payload = "essay/stranded";
  source_trust = "agent";
  durable = true;
}

abbrev foreign_record : LedgerRecord
foreign_record = record {
  id = pos 3;
  payload = "a note";
  source_trust = "judgment";
  durable = false;
}

abbrev shelf : List LedgerRecord
shelf = own_record ∷ foreign_record ∷ []

abbrev producer : LedgerPackage (List LedgerRecord) String
producer = record {
  installed = true;
  trust_of = λ s. ok s;
  write = λ db payload trust durable. ok (
    pos 8,
    record { id = pos 8; payload = payload; source_trust = trust; durable = durable } ∷ db,
  );
  read_all = λ db. ok db;
}

abbrev ordered : List LedgerRecord
ordered = foreign_record ∷ own_record ∷ []

-- ===== src/Ledger/Agreement.antt =====
-- A ledger and a JSONL file that hold the same results answer alike.
use checkseal.Common.{Bool, false, ◌≡◌, List, [], ◌∷◌, none, All}
use checkseal.Common.Outcome.{ok}
use checkseal.Model.Enums.{Authority, value, authority_enum}
use checkseal.Model.Subject.{Subject}
use checkseal.Platform.{Platform}
use checkseal.Store.{CheckResult}
use checkseal.Store.Refinement.{Log}
use checkseal.Ledger.{LedgerRecord, le_id, own_result, decode_record}

-- `zs` is `ys` with `x` somewhere in it.
pub data Inserts (x : LedgerRecord) : List LedgerRecord → List LedgerRecord → Type 0 where
  here : {ys : List LedgerRecord} → Inserts x ys (x ∷ ys)
  there :
      {ys zs : List LedgerRecord} (y : LedgerRecord) → Inserts x ys zs → Inserts x (y ∷ ys) (y ∷ zs)

-- The second list has the records of the first in any order.
pub data Shuffled : List LedgerRecord → List LedgerRecord → Type 0 where
  empty : Shuffled [] []
  insert :
      {xs ys zs : List LedgerRecord} (x : LedgerRecord)
      → Shuffled xs ys
      → Inserts x ys zs
      → Shuffled (x ∷ xs) zs

-- A record has a lower id than another.
abbrev Below : LedgerRecord → LedgerRecord → Type 0
Below x y = le_id y.id x.id ≡ false

-- The id of each record is below those that follow.
abbrev pub InIdOrder : List LedgerRecord → Type 0
InIdOrder [] = Unit
InIdOrder (x ∷ xs) = All (Below x) xs × InIdOrder xs

module _ (os : Platform) where
  -- Records that hold a log among records of other producers: a foreign one does not decode to a
  -- check result. The trust of an own one is any of the three authorities: the package may lower it.
  pub data Holds : List LedgerRecord → Log → Type 0 where
    empty : Holds [] []
    foreign :
        {rs : List LedgerRecord} {log : Log} (r : LedgerRecord)
        → own_result (decode_record os r) ≡ ok none
        → Holds rs log
        → Holds (r ∷ rs) log
    own :
        {rs : List LedgerRecord} {log : Log} (r : LedgerRecord) (result : CheckResult)
        (durable : Bool) (trust : Authority)
        → decode_record os r ≡ ok result
        → r.source_trust ≡ value trust
        → r.durable ≡ durable
        → Holds rs log
        → Holds (r ∷ rs) ((result, durable) ∷ log)

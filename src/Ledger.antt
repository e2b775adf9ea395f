-- ===== src/Ledger.antt =====
-- vlstore.py: the store of check results in a Verification Ledger. The `verification_ledger` package
-- is a parameter.
pub mod Laws
pub mod Agreement
use checkseal.Common.{
  ℕ, String, Bool, true, false, List, [], ◌∷◌, Option, none, some, map, str_eq, leb, if◌then◌else◌,
}
use checkseal.Common.Int.{ℤ, pos, negsuc}
use checkseal.Common.Outcome.{
  Outcome, ok, raise, vcr_error, value_error, json_decode_error, unicode_decode_error, other_error,
  ◌>>=◌, ◌>>◌,
}
use checkseal.JsonUtils.{plain_json}
use checkseal.Model.Enums.{Authority, value, of_value, authority_enum}
use checkseal.Model.CheckEntry.{CheckEntry}
use checkseal.Platform.{Platform}
use checkseal.Digest.{canonical_bytes}
use checkseal.Store.{CheckResult, T0Record, result_to_jsonable, result_from_jsonable}

-- A record as the package returns it, under its envelope: `source_trust` is the value of its `Trust`.
pub record LedgerRecord : Type 0 where
  pub id : ℤ
  pub payload : String
  pub source_trust : String
  pub durable : Bool

-- What the code uses of the package, which may be missing: `Trust(value)`, and `write` and `read_all`
-- of an open ledger. `Db` is the content of the database file.
pub record LedgerPackage (Db Trust : Type 0) : Type 0 where
  pub installed : Bool
  pub trust_of : String → Outcome Trust
  pub write : Db → String → Trust → Bool → Outcome (ℤ × Db)
  pub read_all : Db → Outcome (List LedgerRecord)

-- `int(a.record.id) <= int(b.record.id)`
unfoldable pub le_id : ℤ → ℤ → Bool
le_id (pos a) (pos b) = leb a b
le_id (pos a) (negsuc b) = false
le_id (negsuc a) (pos b) = true
le_id (negsuc a) (negsuc b) = leb b a

unfoldable pub insert_by_id : LedgerRecord → List LedgerRecord → List LedgerRecord
unfolding le_id
insert_by_id r [] = r ∷ []
insert_by_id r (s ∷ rs) =
    let rest = insert_by_id r rs in if le_id r.id s.id then r ∷ s ∷ rs else s ∷ rest

-- `sorted(records, key=id)`, which keeps the order of equal ids
unfoldable pub sort_by_id : List LedgerRecord → List LedgerRecord
unfolding insert_by_id
sort_by_id [] = []
sort_by_id (r ∷ rs) = insert_by_id r (sort_by_id rs)

-- `except (ValueError, VCRError)`: the record of another producer.
unfoldable pub own_result : Outcome CheckResult → Outcome (Option CheckResult)
own_result (ok r) = ok (some r)
own_result (raise (vcr_error _)) = ok none
own_result (raise (value_error _)) = ok none
own_result (raise json_decode_error) = ok none
own_result (raise unicode_decode_error) = ok none
own_result (raise e) = raise e

-- `_load_vl`
abbrev pub load_vl : Bool → Outcome (Unit {0})
load_vl true = ok tt
load_vl false = raise (other_error "ImportError")

unfoldable pub with_digest : String → List (T0Record × CheckResult) → List CheckEntry
with_digest digest [] = []
with_digest digest ((t0, r) ∷ rows) =
    if str_eq r.subject.digest digest
    then r.entry ∷ with_digest digest rows
    else with_digest digest rows

module _ (os : Platform) where
  -- The statements under `try`.
  unfoldable pub decode_record : LedgerRecord → Outcome CheckResult
  decode_record r = do v ← os.parse_json r.payload; result_from_jsonable (plain_json v)

  -- The pair that is yielded for a record of CheckSeal.
  unfoldable pub t0_record : LedgerRecord → CheckResult → Outcome (T0Record × CheckResult)
  t0_record r result = do
    source_trust ← of_value r.source_trust
    ok (
      record {
        id = r.id;
        payload = r.payload;
        source_trust = source_trust;
        durable = r.durable;
        created_at = result.entry.runtime.ran_at;
      },
      result,
    )

  -- What a record yields in front of what the later ones yield.
  unfoldable pub yield_record :
      LedgerRecord
      → Option CheckResult
      → Outcome (List (T0Record × CheckResult))
      → Outcome (List (T0Record × CheckResult))
  unfolding t0_record
  yield_record r none later = later
  yield_record r (some result) later = do row ← t0_record r result; rows ← later; ok (row ∷ rows)

  -- The loop of `_iter_checkseal`.
  unfoldable pub iter_records : List LedgerRecord → Outcome (List (T0Record × CheckResult))
  unfolding own_result
  iter_records [] = ok []
  iter_records (r ∷ rs) = do
    own ← own_result (decode_record r)
    yield_record r own (iter_records rs)

  module _ {Db Trust : Type 0} (vl : LedgerPackage Db Trust) where
    -- `VerificationLedgerSealStore.append`: the id, and the database afterwards.
    unfoldable pub ledger_append : Db → CheckResult → Bool → Outcome (ℤ × Db)
    ledger_append db result durable = do
      load_vl vl.installed
      payload ← os.decode_utf8 (canonical_bytes os (result_to_jsonable result))
      trust ← vl.trust_of (value result.entry.provenance.authority)
      vl.write db payload trust durable

    -- `_iter_checkseal`
    unfoldable pub iter_checkseal : Db → Outcome (List (T0Record × CheckResult))
    iter_checkseal db = do
      load_vl vl.installed
      records ← vl.read_all db
      iter_records (sort_by_id records)

    -- `read`
    unfoldable pub ledger_read : Db → Outcome (List T0Record)
    ledger_read db = do rows ← iter_checkseal db; ok (map (λ row. row.0) rows)

    -- `read_for_subject`
    unfoldable pub ledger_read_for_subject : Db → String → Outcome (List CheckEntry)
    ledger_read_for_subject db digest = do rows ← iter_checkseal db; ok (with_digest digest rows)

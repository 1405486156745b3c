-- ===== src/LedgerStore.antt =====
-- internal/ledgerstore (store.go, read.go, errors.go): the records of the ledgers in PostgreSQL. The
-- database is a parameter: the rows that each statement returns, and the state it leaves, in which
-- other writers may have had their turn.
pub mod Reads
pub mod Appends
use chain_application.Prelude.{
  ℕ, zero, suc, Bytes, List, [], ◌∷◌, Bool, not, ◌&&◌, ◌||◌, Option, none, some, Result, ok, err,
  ◌>>=◌, ◌>>◌, fail_if, map_err, ◌==◌, ascii, bytes_equal, if◌then◌else◌,
}
use chain_application.Ledger.Errors.{Failure}
use chain_application.Ledger.Wires.{Libraries}
use chain_application.Ledger.Event.{previous_digest}
use chain_application.Ledger.Record.{StructuralRecord, validate_record_structure}
use chain_application.Ledger.Chain.{ChainState, zero_state, chain_state_from_record}

abbrev pub unique_violation_code : Bytes
unique_violation_code = ascii "23505"

abbrev pub foreign_key_violation_code : Bytes
foreign_key_violation_code = ascii "23503"

abbrev pub digest_primary_key_constraint : Bytes
digest_primary_key_constraint = ascii "ledger_record_digest_pk"

abbrev pub ledger_sequence_constraint : Bytes
ledger_sequence_constraint = ascii "ledger_record_ledger_sequence_unique"

abbrev pub previous_record_constraint : Bytes
previous_record_constraint = ascii "ledger_record_previous_fk"

-- An error of the database driver: PostgreSQL's, with its SQLSTATE and constraint, or another.
pub data DatabaseError : Type 0 where
  postgres : Bytes → Bytes → DatabaseError
  driver : DatabaseError

-- `unclassified` is a database error under the text that the code wraps it in.
pub data StoreError : Type 0 where
  chain_head_moved duplicate_record unknown_predecessor record_not_found : StoreError
  ledger_column_differs digest_column_differs : StoreError
  unclassified : DatabaseError → StoreError
  invalid_record : Failure → StoreError

-- The columns of `insertRecordStatement`.
pub record Row : Type 0 where
  pub record_digest : Bytes
  pub ledger_id : Bytes
  pub sequence_number : ℕ
  pub previous_record_digest : Option Bytes
  pub event_kind : ℕ
  pub payload_version : ℕ
  pub record_bytes : Bytes

-- What a query for many rows yields: the rows one by one, and the error that ends them, if any.
pub record Rows : Type 0 where
  pub rows : List (Result DatabaseError Bytes)
  pub ending : Option DatabaseError

-- The statements of the package, as the database runs them. A query for one row that finds none
-- yields `ok none`; an insertion yields the number of rows affected.
pub record Database : Type 1 where
  pub World : Type 0
  pub insert_record : Row → World → World × Result DatabaseError ℕ
  pub select_head : Bytes → World → World × Result DatabaseError (Option Bytes)
  pub select_record : Bytes → World → World × Result DatabaseError (Option Bytes)
  pub select_records_from : Bytes → ℕ → ℕ → World → World × Result DatabaseError Rows

unfoldable pub classify_append_error : DatabaseError → StoreError
classify_append_error driver = unclassified driver
classify_append_error (postgres code constraint) =
    if bytes_equal code unique_violation_code && bytes_equal constraint ledger_sequence_constraint
    then chain_head_moved
    else if bytes_equal code unique_violation_code
        && bytes_equal constraint digest_primary_key_constraint
    then duplicate_record
    else if bytes_equal code foreign_key_violation_code
        && bytes_equal constraint previous_record_constraint
    then unknown_predecessor
    else unclassified (postgres code constraint)

-- The arguments of the insertion.
abbrev pub row_of : StructuralRecord → Row
row_of r = record {
  record_digest = r.record_digest;
  ledger_id = r.event.ledger_id;
  sequence_number = r.event.sequence;
  previous_record_digest = previous_digest r.event;
  event_kind = r.event.kind;
  payload_version = r.event.payload_version;
  record_bytes = r.bytes;
}

-- What `Append` makes of the answer.
unfoldable pub appended : Result DatabaseError ℕ → Result StoreError (Unit {0})
appended (err e) = err (classify_append_error e)
appended (ok affected) = fail_if (affected == 0) duplicate_record

module _ (libraries : Libraries) where
  -- What `Head`, `Record` and `ScanRecords` make of the answers.
  unfoldable pub head_of :
      Bytes → Result DatabaseError (Option Bytes) → Result StoreError ChainState
  head_of ledger_id (err e) = err (unclassified e)
  head_of ledger_id (ok none) = ok zero_state
  head_of ledger_id (ok (some bytes)) = do
    r ← map_err invalid_record (validate_record_structure libraries bytes)
    let state = chain_state_from_record r
    fail_if (not state.initialized || not (bytes_equal state.ledger_id ledger_id))
        ledger_column_differs
    ok state

  unfoldable pub record_of :
      Bytes → Result DatabaseError (Option Bytes) → Result StoreError StructuralRecord
  record_of digest (err e) = err (unclassified e)
  record_of digest (ok none) = err record_not_found
  record_of digest (ok (some bytes)) = do
    r ← map_err invalid_record (validate_record_structure libraries bytes)
    fail_if (not (bytes_equal r.record_digest digest)) digest_column_differs
    ok r

  unfoldable pub scanned_row :
      Bytes → Result DatabaseError Bytes → Result StoreError StructuralRecord
  scanned_row ledger_id row = do
    bytes ← map_err unclassified row
    r ← map_err invalid_record (validate_record_structure libraries bytes)
    fail_if (not (bytes_equal r.event.ledger_id ledger_id)) ledger_column_differs
    ok r

  -- The loop over the rows.
  unfoldable pub scan_rows :
      Bytes → List (Result DatabaseError Bytes) → Result StoreError (List StructuralRecord)
  scan_rows ledger_id [] = ok []
  scan_rows ledger_id (row ∷ rows) = do
    r ← scanned_row ledger_id row
    rs ← scan_rows ledger_id rows
    ok (r ∷ rs)

  abbrev pub ended : Option DatabaseError → Result StoreError (Unit {0})
  ended none = ok tt
  ended (some e) = err (unclassified e)

  unfoldable pub scanned :
      Bytes → Result DatabaseError Rows → Result StoreError (List StructuralRecord)
  scanned ledger_id answer = do
    found ← map_err unclassified answer
    rs ← scan_rows ledger_id found.rows
    ended found.ending
    ok rs

  module _ (database : Database) where
    open database use {World, insert_record, select_head, select_record, select_records_from}

    unfoldable pub append : StructuralRecord → World → World × Result StoreError (Unit {0})
    append r world = let (next, answer) = insert_record (row_of r) world in (next, appended answer)

    unfoldable pub head : Bytes → World → World × Result StoreError ChainState
    head ledger_id world =
        let (next, answer) = select_head ledger_id world in (next, head_of ledger_id answer)

    unfoldable pub stored_record : Bytes → World → World × Result StoreError StructuralRecord
    stored_record digest world =
        let (next, answer) = select_record digest world in (next, record_of digest answer)

    -- A limit that is not positive is 0 here.
    unfoldable pub scan_records :
        Bytes → ℕ → ℕ → World → World × Result StoreError (List StructuralRecord)
    scan_records ledger_id from zero world = (world, ok [])
    scan_records ledger_id from (suc limit) world =
        let (next, answer) = select_records_from ledger_id from (suc limit) world in
        (next, scanned ledger_id answer)

-- ===== src/LedgerStore/Appends.antt =====
-- Which answer of the database each outcome of an append comes from.
use chain_application.Prelude.{
  ℕ, zero, suc, ◌≡◌, ◌↔◌, ◌⊎◌, refl, arith, bytes_equal, bytes_equal_iff, Result, ok, err, inl, inr,
}
use chain_application.Ledger.Wires.{Libraries}
use chain_application.Ledger.Record.{StructuralRecord}
use chain_application.LedgerStore.{
  DatabaseError, postgres, driver, StoreError, chain_head_moved, duplicate_record,
  unknown_predecessor, Database, unique_violation_code, foreign_key_violation_code,
  digest_primary_key_constraint, ledger_sequence_constraint, previous_record_constraint,
  classify_append_error, row_of, appended, append,
}

-- What each of the outcomes that a caller tells apart says of the answer.
pub record IsClassified (answer : Result DatabaseError ℕ) (o : Result StoreError (Unit {0}))
    : Type 0 where
  pub stored : (o ≡ ok tt) ↔ ((n : ℕ) × (answer ≡ ok (suc n)))
  pub moved :
      (o ≡ err chain_head_moved)
      ↔ (answer ≡ err (postgres unique_violation_code ledger_sequence_constraint))
  pub repeated : (o ≡ err duplicate_record) ↔ (
      (answer ≡ ok 0)
      ⊎ (answer ≡ err (postgres unique_violation_code digest_primary_key_constraint)))
  pub orphaned :
      (o ≡ err unknown_predecessor)
      ↔ (answer ≡ err (postgres foreign_key_violation_code previous_record_constraint))

stored_from :
    (answer : Result DatabaseError ℕ) → appended answer ≡ ok tt → (n : ℕ) × (answer ≡ ok (suc n))
unfolding appended classify_append_error
stored_from (ok zero) h = absurd (ground arith)
stored_from (ok (suc n)) h = (n, refl)
stored_from (err driver) h = absurd (ground arith)
stored_from (err (postgres code constraint)) h = absurd (ground arith)

moved_from :
    (answer : Result DatabaseError ℕ)
    → appended answer ≡ err chain_head_moved
    → answer ≡ err (postgres unique_violation_code ledger_sequence_constraint)
unfolding appended classify_append_error
moved_from (ok n) h = absurd (ground arith)
moved_from (err driver) h = absurd (ground arith)
moved_from (err (postgres code constraint)) h = ground (
  arith,
  bytes_equal_iff code unique_violation_code,
  bytes_equal_iff constraint ledger_sequence_constraint,
)

repeated_from :
    (answer : Result DatabaseError ℕ)
    → appended answer ≡ err duplicate_record
    → (answer ≡ ok 0)
      ⊎ (answer ≡ err (postgres unique_violation_code digest_primary_key_constraint))
unfolding appended classify_append_error
repeated_from (ok zero) h = inl refl
repeated_from (ok (suc n)) h = absurd (ground arith)
repeated_from (err driver) h = absurd (ground arith)
repeated_from (err (postgres code constraint)) h = inr (
    ground (
      arith,
      bytes_equal_iff code unique_violation_code,
      bytes_equal_iff constraint digest_primary_key_constraint,
    ))

orphaned_from :
    (answer : Result DatabaseError ℕ)
    → appended answer ≡ err unknown_predecessor
    → answer ≡ err (postgres foreign_key_violation_code previous_record_constraint)
unfolding appended classify_append_error
orphaned_from (ok n) h = absurd (ground arith)
orphaned_from (err driver) h = absurd (ground arith)
orphaned_from (err (postgres code constraint)) h = ground (
  arith,
  bytes_equal_iff code foreign_key_violation_code,
  bytes_equal_iff constraint previous_record_constraint,
)

appended-IsClassified : (answer : Result DatabaseError ℕ) → IsClassified answer (appended answer)
unfolding appended classify_append_error bytes_equal
appended-IsClassified answer = record {
  stored = (stored_from answer, λ (n, e). rw e (ground arith));
  moved = (moved_from answer, λ e. rw e refl);
  repeated = (repeated_from answer, λ h. elim h [ inl e ↦ rw e refl | inr e ↦ rw e refl ]);
  orphaned = (orphaned_from answer, λ e. rw e refl);
}

-- Append succeeds exactly when a row was inserted; it reports a moved head, a duplicate and an
-- unknown predecessor exactly when the database refused the record's row by the constraint on the
-- sequence, by the primary key or without inserting, and by the reference to the previous record.
pub append-IsClassified :
    (libraries : Libraries) (database : Database) (r : StructuralRecord) (world : database.World)
    → IsClassified (database.insert_record (row_of r) world).1 (append libraries database r world).1
unfolding append
append-IsClassified libraries database r world =
    appended-IsClassified (database.insert_record (row_of r) world).1

-- ===== src/Tests/Stores.antt =====
-- A database with the two records of the ledger, and the theorems of the store at it.
use chain_application.Prelude.{
  ℕ, zero, suc, ◌+◌, ◌≤◌, ◌≡◌, ◌↔◌, ◌⊎◌, refl, ap, sym, ◌∙◌, subst, arith, Bytes, List, [], ◌∷◌,
  map, none, some, Result, ok, length, take, drop,
}
use chain_application.Ledger.Record.{StructuralRecord}
use chain_application.Ledger.Chain.{zero_state, advanced, chain_state_from_record}
use chain_application.LedgerStore.{
  DatabaseError, Database, Rows, append, head, stored_record, scan_records, scanned, scan_rows,
  scanned_row, row_of, head_of,
}
use chain_application.LedgerStore.Reads.{
  IsRowOf, IsHeadOf, AreHeld, none_held, one_held, stored_record_iff, head_iff, scan_records_iff,
}
use chain_application.LedgerStore.Appends.{IsClassified, append-IsClassified}
use chain_application.Graph.Store.{new_graph, set_last_sequence}
use chain_application.Graph.Store.Invariant.{new_graph-IsIndexed}
use chain_application.Graph.Projector.{apply_records, apply_record, continues, project}
use chain_application.Graph.Projector.Stored.{Replayed, replay_rounds, replay_from_store}
use chain_application.Graph.Projector.Stored.Whole.{IsWhole, replay_from_store-IsWhole}
use chain_application.Graph.Projector.Stored.Ending.{IsBounded, IsEnded, replay_from_store-IsEnded}
use chain_application.Tests.Encoding.{toy_libraries as toy}
use chain_application.Tests.Ledgers.{
  kernel, id, first_event, second_event, record_of as ledger_record_of,
}
use chain_application.Tests.Signing.{toy_crypto}

abbrev first : StructuralRecord
first = ledger_record_of first_event

abbrev pub second : StructuralRecord
second = ledger_record_of second_event

abbrev two_rows : List Bytes
two_rows = first.bytes ∷ second.bytes ∷ []

-- The rows from a sequence number on.
abbrev rows_from : ℕ → List Bytes
rows_from zero = two_rows
rows_from (suc n) = drop n two_rows

-- A database that holds these rows and takes no other.
abbrev pub full_database : Database
full_database = record {
  World = Unit {0};
  insert_record = λ row world. (world, ok 0);
  select_head = λ ledger_id world. (world, ok (some second.bytes));
  select_record = λ digest world. (world, ok (some first.bytes));
  select_records_from = λ ledger_id from limit world.
      (world, ok (record { rows = map ok (take limit (rows_from from)); ending = none }));
}

stored_record_iff_example :
    ((stored_record toy full_database first.record_digest tt).1 ≡ ok first) ↔ (
      IsRowOf toy (full_database.select_record first.record_digest tt).1 first
      × (first.record_digest ≡ first.record_digest))
stored_record_iff_example = stored_record_iff toy full_database first.record_digest tt first

head_iff_example : ((head toy full_database id tt).1 ≡ ok (advanced id second)) ↔ (
    (((full_database.select_head id tt).1 ≡ ok none) × (advanced id second ≡ zero_state))
    ⊎ ((r : StructuralRecord) × IsHeadOf toy id
          (full_database.select_head id tt).1
          (advanced id second)
          r))
head_iff_example = head_iff toy full_database id tt (advanced id second)

head_found : (head toy full_database id tt).1 ≡ ok (advanced id second)
unfolding kernel head head_of chain_state_from_record
head_found = refl

scan_records_iff_example :
    ((scan_records toy full_database id 1 (suc 4) tt).1 ≡ ok (first ∷ second ∷ [])) ↔ (
      (found : Rows) × ((full_database.select_records_from id 1 (suc 4) tt).1 ≡ ok found)
      × (found.ending ≡ none)
      × AreHeld toy id found.rows (first ∷ second ∷ []))
scan_records_iff_example = scan_records_iff toy full_database id 1 4 tt (first ∷ second ∷ [])

append-IsClassified_example :
    IsClassified
      (full_database.insert_record (row_of first) tt).1
      (append toy full_database first tt).1
append-IsClassified_example = append-IsClassified toy full_database first tt

length-AreHeld :
    (ledger_id : Bytes) (rows : List (Result DatabaseError Bytes)) (rs : List StructuralRecord)
    → AreHeld toy ledger_id rows rs
    → length rs ≡ length rows
length-AreHeld ledger_id _ _ none_held = refl
length-AreHeld ledger_id _ _ (one_held b r rows rs v l h) =
    ap suc (length-AreHeld ledger_id rows rs h)

abbrev read_rows : ℕ → List Bytes → List (Result DatabaseError Bytes)
read_rows batch rows = map ok (take batch rows)

length-read_rows : (batch : ℕ) (rows : List Bytes) → length (read_rows batch rows) ≤ length rows
length-read_rows zero rows = omega arith
length-read_rows (suc b) [] = omega arith
length-read_rows (suc b) (x ∷ xs) = omega (arith, length-read_rows b xs)

from_fits : (batch from : ℕ) → from ≤ 3 → from + length (read_rows batch (rows_from from)) ≤ 3
from_fits batch zero h = omega (arith, length-read_rows batch (rows_from 0))
from_fits batch (suc zero) h = omega (arith, length-read_rows batch (rows_from 1))
from_fits batch (suc (suc zero)) h = omega (arith, length-read_rows batch (rows_from 2))
from_fits batch (suc (suc (suc zero))) h = omega (arith, length-read_rows batch (rows_from 3))
from_fits batch (suc (suc (suc (suc n)))) h = absurd (omega (arith, h))

pub full-IsBounded : IsBounded toy toy_crypto full_database 2
unfolding scan_records
full-IsBounded ledger_id from zero world rs h e = ground arith
full-IsBounded ledger_id from (suc batch) world rs h e =
    let (found, read, done, held) =
      (scan_records_iff toy full_database ledger_id from batch world rs).0 e in
    let same : read_rows (suc batch) (rows_from from) ≡ found.rows = ground (arith, read) in
    let count = length-AreHeld ledger_id found.rows rs held in
    subst (λ n. from + n ≤ 3) (ap length same ∙ sym count) (from_fits (suc batch) from h)

replay_from_store-IsEnded_example :
    IsEnded toy toy_crypto full_database
      (new_graph id)
      0
      (replay_from_store toy toy_crypto full_database 3 1 tt (new_graph id))
replay_from_store-IsEnded_example =
    replay_from_store-IsEnded toy toy_crypto full_database 2 (omega arith) full-IsBounded 3 1 tt
      (new_graph id) (new_graph-IsIndexed id) (omega arith) (omega arith)

-- A database with the genesis row alone, and its replay by batches of one row: a full batch, and an
-- empty one.
abbrev genesis_rows : ℕ → List Bytes
genesis_rows zero = first.bytes ∷ []
genesis_rows (suc n) = drop n (first.bytes ∷ [])

abbrev genesis_database : Database
genesis_database = record full_database {
  select_records_from = λ ledger_id from limit world.
      (world, ok (record { rows = map ok (take limit (genesis_rows from)); ending = none }));
}

abbrev replayed : Replayed (Unit {0})
replayed = record {
  world = tt;
  graph = set_last_sequence 1 (new_graph id);
  total_applied = 1;
  failure = none;
}

replay_succeeds :
    replay_from_store toy toy_crypto genesis_database 3 1 tt (new_graph id) ≡ some replayed
unfolding kernel replay_from_store replay_rounds scan_records scanned scan_rows scanned_row
    apply_records apply_record continues project
replay_succeeds = refl

replay_from_store-IsWhole_example :
    IsWhole toy toy_crypto genesis_database 1 tt (new_graph id) replayed.world replayed.graph
replay_from_store-IsWhole_example =
    replay_from_store-IsWhole toy toy_crypto genesis_database 3 1 tt (new_graph id) replayed
      replay_succeeds refl

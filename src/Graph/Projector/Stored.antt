-- ===== src/Graph/Projector/Stored.antt =====
-- internal/graph/v1/projector.go, ReplayFromStore: the loop over the batches that the store yields.
pub mod Ending
pub mod Whole
use chain_application.Prelude.{
  ℕ, zero, suc, ◌+◌, ◌%◌, List, [], ◌∷◌, Option, none, some, Result, ok, err, ◌==◌, ltb, length,
  if◌then◌else◌,
}
use chain_application.Ledger.Constants.{uint64_mod}
use chain_application.Ledger.Wires.{Libraries}
use chain_application.Ledger.Record.{StructuralRecord}
use chain_application.Endorsement.Wires.{Crypto}
use chain_application.LedgerStore.{StoreError, Database, scan_records}
use chain_application.Graph.Store.{Graph}
use chain_application.Graph.Projector.{Projection, ProjectionError, apply_records}

pub data ReplayError : Type 0 where
  scan_failed : StoreError → ReplayError
  apply_failed : ProjectionError → ReplayError

-- What the method returns, with the graph and the database that it leaves.
pub record Replayed (World : Type 0) : Type 0 where
  pub world : World
  pub graph : Graph
  pub total_applied : ℕ
  pub failure : Option ReplayError

-- `if batchSize <= 0 { batchSize = 256 }`.
abbrev pub batch_of : ℕ → ℕ
batch_of size = if size == 0 then 256 else size

module _ (libraries : Libraries) (crypto : Crypto) (database : Database) where
  open database use {World}

  abbrev done : World → Graph → ℕ → Option ReplayError → Replayed World
  done world g total failure = record {
    world = world;
    graph = g;
    total_applied = total;
    failure = failure;
  }

  -- The end of a round: a batch with an error, the second `break`, or the next round.
  abbrev pub after_batch :
      ℕ
      → ℕ
      → World
      → ℕ
      → (ℕ × Projection)
      → (ℕ → Graph → Option (Replayed World))
      → Option (Replayed World)
  after_batch batch size world total (n, (g, some e)) again =
      some (done world g (total + n) (some (apply_failed e)))
  after_batch batch size world total (n, (g, none)) again =
      if ltb size batch then some (done world g (total + n) none) else again n g

  -- A round after its scan: an error, the first `break`, or the batch.
  abbrev pub after_scan :
      ℕ
      → World
      → ℕ
      → Graph
      → Result StoreError (List StructuralRecord)
      → (ℕ → Graph → Option (Replayed World))
      → Option (Replayed World)
  after_scan batch world total g (err e) again = some (done world g total (some (scan_failed e)))
  after_scan batch world total g (ok []) again = some (done world g total none)
  after_scan batch world total g (ok (r ∷ rs)) again =
      after_batch batch (length (r ∷ rs)) world total (apply_records crypto (r ∷ rs) g) again

  -- The loop, for at most `fuel` rounds.
  unfoldable pub replay_rounds : ℕ → ℕ → ℕ → World → Graph → Option (Replayed World)
  replay_rounds zero batch total world g = none
  replay_rounds (suc fuel) batch total world g =
      let (next, answer) =
        scan_records libraries database g.ledger_id ((g.last_sequence + 1) % uint64_mod) batch
          world in
      after_scan batch next total g answer
        (λ n after. replay_rounds fuel batch (total + n) next after)

  unfoldable pub replay_from_store : ℕ → ℕ → World → Graph → Option (Replayed World)
  replay_from_store fuel batch_size world g = replay_rounds fuel (batch_of batch_size) 0 world g

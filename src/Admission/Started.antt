-- ===== src/Admission/Started.antt =====
-- When InitLedger returns a record.
use chain_application.Prelude.{◌≡◌, Bytes, false, ok}
use chain_application.Ledger.Wires.{Libraries}
use chain_application.Ledger.Event.{new_genesis_event}
use chain_application.Ledger.Record.{StructuralRecord}
use chain_application.Ledger.Chain.{ChainState}
use chain_application.LedgerStore.{head, append}
use chain_application.Admission.{Environment, Admitted, sign_event, initialized}

module _ (libraries : Libraries) (environment : Environment) where
  open environment use {database, now}
  open database use {World}

  -- The genesis event of the ledger, signed and wrapped in a record.
  abbrev genesis_at : Bytes → World → Admitted libraries environment
  genesis_at ledger_id world =
      sign_event libraries environment (new_genesis_event libraries ledger_id (now world)) world

  -- The head has no record, and the database takes the genesis record.
  pub record IsStarted (ledger_id : Bytes) (before : World) (r : StructuralRecord) : Type 0 where
    pub state : ChainState
    pub read : (head libraries database ledger_id before).1 ≡ ok state
    pub fresh : state.initialized ≡ false
    pub signed : (genesis_at ledger_id (head libraries database ledger_id before).0).1 ≡ ok r
    pub stored :
        (append libraries database r
          (genesis_at ledger_id (head libraries database ledger_id before).0).0).1
        ≡ ok tt

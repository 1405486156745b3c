-- ===== src/Ledger/Chain.antt =====
-- internal/ledger/v1/chain.go: the position in a chain, and how records advance it. A function
-- that returns a state and an error is a pair, so that the state beside an error is modelled too.
pub mod Links
pub mod Histories
pub mod Replay
use chain_application.Prelude.{
  ℕ, ◌+◌, ◌%◌, Bytes, List, [], ◌∷◌, Bool, true, false, not, ◌||◌, Option, none, some, Result, ok,
  err, ◌==◌, length, replicate, bytes_equal, if◌then◌else◌,
}
use chain_application.Ledger.Constants.{
  digest_bytes, ledger_id_bytes, event_kind_ledger_initialized, max_uint64, uint64_mod,
}
use chain_application.Ledger.Errors.{
  Failure, Checked, chain_consistency, schema_violation, invalid_sequence, ledger_mismatch,
  chain_link_mismatch, wrap_validation_error,
}
use chain_application.Ledger.Wires.{Libraries}
use chain_application.Ledger.Event.{StructuralEvent, validate_event_semantics}
use chain_application.Ledger.Record.{StructuralRecord}

pub record ChainState : Type 0 where
  pub initialized : Bool
  pub ledger_id : Bytes
  pub last_sequence : ℕ
  pub last_record_digest : Bytes

-- `ChainState{}`.
abbrev pub zero_state : ChainState
zero_state = record {
  initialized = false;
  ledger_id = replicate ledger_id_bytes 0;
  last_sequence = 0;
  last_record_digest = replicate digest_bytes 0;
}

abbrev pub Outcome : Type 0 → Type 0
Outcome S = S × Option Failure

-- The state that admitting the record leads to.
abbrev pub advanced : Bytes → StructuralRecord → ChainState
advanced ledger_id r = record {
  initialized = true;
  ledger_id = ledger_id;
  last_sequence = r.event.sequence;
  last_record_digest = r.record_digest;
}

abbrev refuse : ChainState → Failure → Outcome ChainState
refuse state failure = (state, some failure)

-- The part below `if !state.initialized`.
unfoldable pub validate_continuation : ChainState → StructuralRecord → Outcome ChainState
validate_continuation state r =
    if state.last_sequence == max_uint64
    then refuse state (wrap_validation_error chain_consistency invalid_sequence)
    else if not (bytes_equal r.event.ledger_id state.ledger_id)
    then refuse state (wrap_validation_error chain_consistency ledger_mismatch)
    else if not (r.event.sequence == (state.last_sequence + 1) % uint64_mod)
    then refuse state (wrap_validation_error chain_consistency invalid_sequence)
    else if not r.event.has_previous_record_digest
        || not (bytes_equal r.event.previous_record_digest state.last_record_digest)
    then refuse state (wrap_validation_error chain_consistency chain_link_mismatch)
    else if r.event.kind == event_kind_ledger_initialized
    then refuse state (wrap_validation_error chain_consistency invalid_sequence)
    else (advanced state.ledger_id r, none)

-- The part inside it, on the result of the semantic validation.
abbrev start_chain : ChainState → StructuralRecord → Checked (Unit {0}) → Outcome ChainState
start_chain state r (ok u) = (advanced r.event.ledger_id r, none)
start_chain state r (err e) = (state, some e)

unfoldable pub chain_state_from_record : StructuralRecord → ChainState
chain_state_from_record r = if length r.bytes == 0 then zero_state else advanced r.event.ledger_id r

module _ (libraries : Libraries) where
  unfoldable pub validate_chain_consistency : ChainState → StructuralRecord → Outcome ChainState
  validate_chain_consistency state r =
      if length r.bytes == 0
      then refuse state (wrap_validation_error chain_consistency schema_violation)
      else if not state.initialized
      then start_chain state r (validate_event_semantics libraries r.event)
      else validate_continuation state r

  -- `Apply`; the replay state holds the chain state alone.
  abbrev applied : ChainState → Outcome ChainState → Outcome ChainState
  applied state (next, none) = (next, none)
  applied state (next, some e) = (state, some e)

  abbrev after_semantics : ChainState → StructuralRecord → Checked (Unit {0}) → Outcome ChainState
  after_semantics state r (ok u) = applied state (validate_chain_consistency state r)
  after_semantics state r (err e) = (state, some e)

  unfoldable pub apply : ChainState → StructuralRecord → Outcome ChainState
  apply state r = after_semantics state r (validate_event_semantics libraries r.event)

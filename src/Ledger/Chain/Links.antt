-- ===== src/Ledger/Chain/Links.antt =====
-- What a record has to be to continue a chain, and what a refused record leaves behind.
use chain_application.Prelude.{
  suc, ◌≤◌, ◌<◌, ◌≡◌, ◌≢◌, ◌↔◌, ◌⊎◌, ap, true, false, none, ok, arith, length, bytes_equal_iff,
  Result-cases, inl, inr, Bool-cases,
}
use chain_application.Ledger.Constants.{event_kind_ledger_initialized, max_uint64}
use chain_application.Ledger.Wires.{Libraries, IsDocumented}
use chain_application.Ledger.Event.{validate_event_semantics}
use chain_application.Ledger.Event.Semantics.{IsValidated, IsGenesis, validate_event_semantics_iff}
use chain_application.Ledger.Record.{StructuralRecord}
use chain_application.Ledger.Chain.{
  ChainState, Outcome, advanced, validate_continuation, validate_chain_consistency,
}

-- The record follows the state: same ledger, next number with room for it, link to the last
-- record, and no second genesis.
pub record IsNext (state : ChainState) (r : StructuralRecord) : Type 0 where
  pub room : state.last_sequence < max_uint64
  pub same_ledger : r.event.ledger_id ≡ state.ledger_id
  pub next_sequence : r.event.sequence ≡ suc state.last_sequence
  pub has_link : r.event.has_previous_record_digest ≡ true
  pub link : r.event.previous_record_digest ≡ state.last_record_digest
  pub no_genesis : r.event.kind ≢ event_kind_ledger_initialized

-- The record is not the zero value, and its event came out of validation.
pub record IsGood (libraries : Libraries) (r : StructuralRecord) : Type 0 where
  pub nonempty : 0 < length r.bytes
  pub validated : IsValidated libraries r.event

module _ (state : ChainState) (r : StructuralRecord) where
  pub continuation→IsNext :
      (validate_continuation state r).1 ≡ none → state.last_sequence ≤ max_uint64 → IsNext state r
  unfolding validate_continuation
  continuation→IsNext h range =
      let id_same = bytes_equal_iff r.event.ledger_id state.ledger_id in
      let link_same = bytes_equal_iff r.event.previous_record_digest state.last_record_digest in
      record {
        room = ground arith;
        same_ledger = id_same.0 (ground arith);
        next_sequence = ground arith;
        has_link = ground arith;
        link = link_same.0 (ground arith);
        no_genesis = λ e. ground arith;
      }

  pub IsNext→continuation :
      IsNext state r → validate_continuation state r ≡ (advanced state.ledger_id r, none)
  unfolding validate_continuation
  IsNext→continuation n =
      let id_same = (bytes_equal_iff r.event.ledger_id state.ledger_id).1 n.same_ledger in
      let link_same =
        (bytes_equal_iff r.event.previous_record_digest state.last_record_digest).1 n.link in
      ground arith

-- What makes a good record acceptable at a state.
abbrev pub IsAcceptable : ChainState → StructuralRecord → Type 0
IsAcceptable state r =
    ((state.initialized ≡ false) × IsGenesis r.event)
    ⊎ ((state.initialized ≡ true) × IsNext state r)

abbrev pub next_state : StructuralRecord → ChainState
next_state r = advanced r.event.ledger_id r

module _ (libraries : Libraries) (documented : IsDocumented libraries) (state : ChainState)
    (r : StructuralRecord) where
  semantics_iff :
      IsGood libraries r → (validate_event_semantics libraries r.event ≡ ok tt) ↔ IsGenesis r.event
  semantics_iff g = validate_event_semantics_iff libraries documented r.event g.validated

  advanced-eq : r.event.ledger_id ≡ state.ledger_id → advanced state.ledger_id r ≡ next_state r
  advanced-eq e = rw e

  accepted→IsAcceptable :
      IsGood libraries r
      → state.last_sequence ≤ max_uint64
      → (validate_chain_consistency libraries state r).1 ≡ none
      → IsAcceptable state r
  unfolding validate_chain_consistency
  accepted→IsAcceptable g range h = elim (Bool-cases state.initialized) [
    | inl old ↦ inr (old, continuation→IsNext state r (ground (arith, g.nonempty)) range)
    | inr new ↦ elim (Result-cases (validate_event_semantics libraries r.event)) [
      | inl (u, e) ↦ inl (new, (semantics_iff g).0 e)
      | inr (f, e) ↦ absurd (ground (arith, g.nonempty))
    ]
  ]

  IsAcceptable→accepted :
      IsGood libraries r
      → IsAcceptable state r
      → validate_chain_consistency libraries state r ≡ (next_state r, none)
  unfolding validate_chain_consistency
  IsAcceptable→accepted g (inl (new, genesis)) = ground (arith, (semantics_iff g).1 genesis)
  IsAcceptable→accepted g (inr (old, next)) =
      ground (arith, IsNext→continuation state r next, advanced-eq next.same_ledger)

  -- A good record is accepted exactly when it is a genesis record at a state that is not
  -- initialized, or the next record of the state's chain; and it then leads to the state that it
  -- establishes by itself.
  pub validate_chain_consistency_iff :
      IsGood libraries r
      → state.last_sequence ≤ max_uint64
      → (((validate_chain_consistency libraries state r).1 ≡ none) ↔ IsAcceptable state r)
        × (IsAcceptable state r
            → validate_chain_consistency libraries state r ≡ (next_state r, none))
  validate_chain_consistency_iff g range = (
    (
      accepted→IsAcceptable g range,
      λ a. ap (λ (o : Outcome ChainState). o.1) (IsAcceptable→accepted g a),
    ),
    IsAcceptable→accepted g,
  )

  -- A refused record leaves the state as it was.
  pub validate_chain_consistency_refused :
      (validate_chain_consistency libraries state r).1 ≢ none
      → (validate_chain_consistency libraries state r).0 ≡ state
  unfolding validate_chain_consistency validate_continuation
  validate_chain_consistency_refused h = ground arith

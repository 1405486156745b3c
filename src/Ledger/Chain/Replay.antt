-- ===== src/Ledger/Chain/Replay.antt =====
-- Semantic replay: version 1 gets past the genesis record and no further.
use chain_application.Prelude.{◌≡◌, ◌≢◌, true, none, arith, Result-cases, inl, inr}
use chain_application.Ledger.Wires.{Libraries, IsDocumented}
use chain_application.Ledger.Event.{validate_event_semantics}
use chain_application.Ledger.Event.Semantics.{validate_event_semantics_iff}
use chain_application.Ledger.Record.{StructuralRecord}
use chain_application.Ledger.Chain.{
  ChainState, validate_chain_consistency, validate_continuation, apply,
}
use chain_application.Ledger.Chain.Links.{IsGood}

module _ (libraries : Libraries) where
  -- A refused record leaves the replay state as it was.
  apply_refused :
      (state : ChainState) (r : StructuralRecord)
      → (apply libraries state r).1 ≢ none
      → (apply libraries state r).0 ≡ state
  unfolding apply
  apply_refused state r h = ground arith

  apply_initializes :
      (state : ChainState) (r : StructuralRecord)
      → (apply libraries state r).1 ≡ none
      → (apply libraries state r).0.initialized ≡ true
  unfolding apply validate_chain_consistency validate_continuation
  apply_initializes state r h = ground arith

module _ (libraries : Libraries) (documented : IsDocumented libraries) where
  -- An initialized state refuses every good record: a genesis record, since the chain has one, and
  -- any other, since version 1 gives it no meaning.
  apply_stops :
      (state : ChainState) (r : StructuralRecord)
      → IsGood libraries r
      → state.initialized ≡ true
      → (apply libraries state r).1 ≢ none
  unfolding apply validate_chain_consistency validate_continuation
  apply_stops state r g old h = elim (Result-cases (validate_event_semantics libraries r.event)) [
    | inr (f, e) ↦ ground arith
    | inl (u, e) ↦
        let genesis = (validate_event_semantics_iff libraries documented r.event g.validated).0 e in
        ground (arith, g.nonempty, genesis.kind_eq)
  ]

  -- After one record that replay accepts, it refuses every good record and its state stays.
  pub apply_twice :
      (state : ChainState) (r q : StructuralRecord)
      → IsGood libraries q
      → (apply libraries state r).1 ≡ none
      → ((apply libraries (apply libraries state r).0 q).1 ≢ none)
        × ((apply libraries (apply libraries state r).0 q).0 ≡ (apply libraries state r).0)
  apply_twice state r q g accepted =
      let after = (apply libraries state r).0 in
      let stops = apply_stops after q g (apply_initializes libraries state r accepted) in
      (stops, apply_refused libraries after q stops)

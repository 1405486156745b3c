-- ===== src/Graph/Projector.antt =====
-- internal/graph/v1/projector.go: the projection of one record into the graph, and of a batch of
-- them. The graph is updated in place, so its state beside an error is modelled too.
pub mod Indexed
pub mod Steps
pub mod Replay
pub mod Stored
use chain_application.Prelude.{
  ℕ, suc, Bytes, ◌+◌, ◌%◌, Bool, not, List, [], ◌∷◌, Option, none, some, Result, ok, err, ◌>>=◌,
  map_err, ◌==◌, bytes_equal, contents, if◌then◌else◌,
}
use chain_application.Ledger.Constants.{
  event_kind_ledger_initialized, event_kind_endorsement_accepted, event_kind_endorsement_revoked,
  uint64_mod,
}
use chain_application.Ledger.Record.{StructuralRecord}
use chain_application.Endorsement.Wires.{PayloadError, Crypto}
use chain_application.Endorsement.Payloads.{decode_accepted_payload, decode_revoked_payload}
use chain_application.Graph.Edge.{AttestationEdge, new_attestation_edge}
use chain_application.Graph.Store.{Graph, GraphError, set_last_sequence, add_edge, revoke_edge}
use chain_application.Graph.Identity.{IdentityError, identity_key_from_public_key}

pub data ProjectionError : Type 0 where
  ledger_mismatch sequence_break : ProjectionError
  bad_payload : PayloadError → ProjectionError
  bad_key : IdentityError → ProjectionError
  refused : GraphError → ProjectionError

abbrev pub Projection : Type 0
Projection = Graph × Option ProjectionError

-- The arguments of `RevokeEdge` that a payload carries.
pub record Revocation : Type 0 where
  pub target : Bytes
  pub revoker : Bytes
  pub role : ℕ
  pub at : ℕ
  pub reason : Bytes

-- The sequence number is the one after the last, in `uint64`, or 1 in an empty graph.
unfoldable pub continues : ℕ → ℕ → Bool
continues last seq = if last == 0 then seq == 1 else seq == (last + 1) % uint64_mod

-- A method's error is the error of the projection.
abbrev pub reported : Graph × Option GraphError → Projection
reported (g, none) = (g, none)
reported (g, some e) = (g, some (refused e))

-- What becomes of the graph once the payload is read.
abbrev pub add_decoded : Graph → Result ProjectionError AttestationEdge → Projection
add_decoded g (ok edge) = reported (add_edge (some edge) g)
add_decoded g (err e) = (g, some e)

abbrev pub revoke_decoded :
    StructuralRecord → Graph → Result ProjectionError Revocation → Projection
revoke_decoded r g (err e) = (g, some e)
revoke_decoded r g (ok v) =
    reported
      (revoke_edge v.target v.revoker v.role v.at r.record_digest v.reason r.event.sequence g)

-- One more record is applied.
abbrev pub counted : ℕ × Projection → ℕ × Projection
counted (n, p) = (suc n, p)

module _ (crypto : Crypto) where
  unfoldable pub accepted_edge : StructuralRecord → Result ProjectionError AttestationEdge
  accepted_edge r = do
    payload ← map_err bad_payload (decode_accepted_payload crypto (contents r.event.payload_bytes))
    proposer ← map_err bad_key (identity_key_from_public_key crypto payload.proposer_public_key)
    subject ← map_err bad_key (identity_key_from_public_key crypto payload.subject_public_key)
    ok (
        new_attestation_edge r.record_digest r.event.sequence proposer subject payload.topic
          (contents payload.claim_body_bytes) payload.proposed_at_unix_ms
          payload.accepted_at_unix_ms)

  unfoldable pub revocation : StructuralRecord → Result ProjectionError Revocation
  revocation r = do
    payload ← map_err bad_payload (decode_revoked_payload crypto (contents r.event.payload_bytes))
    revoker ← map_err bad_key (identity_key_from_public_key crypto payload.revoker_public_key)
    ok (record {
      target = payload.target_record_digest;
      revoker = revoker;
      role = payload.role;
      at = payload.revoked_at_unix_ms;
      reason = payload.reason;
    })

  -- The switch on the kind.
  unfoldable pub project : StructuralRecord → Graph → Projection
  project r g =
      if r.event.kind == event_kind_ledger_initialized
      then (set_last_sequence r.event.sequence g, none)
      else if r.event.kind == event_kind_endorsement_accepted
      then add_decoded g (accepted_edge r)
      else if r.event.kind == event_kind_endorsement_revoked
      then revoke_decoded r g (revocation r)
      else (set_last_sequence r.event.sequence g, none)

  unfoldable pub apply_record : StructuralRecord → Graph → Projection
  apply_record r g =
      if not (bytes_equal r.event.ledger_id g.ledger_id)
      then (g, some ledger_mismatch)
      else if not (continues g.last_sequence r.event.sequence)
      then (g, some sequence_break)
      else project r g

  -- The loop of `ReplayFromStore` over a batch: the records applied, the graph and the error.
  unfoldable pub apply_records : List StructuralRecord → Graph → ℕ × Projection
  apply_records [] g = (0, (g, none))
  apply_records (r ∷ rs) g =
      let (next, failed) = apply_record r g in
      elim failed [ none ↦ counted (apply_records rs next) | some e ↦ (0, (next, some e)) ]

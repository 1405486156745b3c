-- ===== src/Graph/Projector/Indexed.antt =====
-- The projection of a record and the indexes of the graph.
use chain_application.Prelude.{ℕ, ◌≡◌, refl, arith, Option, none, some, Result, ok, err, subst, sym}
use chain_application.Ledger.Record.{StructuralRecord}
use chain_application.Endorsement.Wires.{Crypto}
use chain_application.Graph.Edge.{AttestationEdge}
use chain_application.Graph.Store.{Graph, GraphError, set_last_sequence, add_edge, revoke_edge}
use chain_application.Graph.Store.Invariant.{IsIndexed, add_edge-IsIndexed, revoke_edge-IsIndexed}
use chain_application.Graph.Projector.{
  ProjectionError, Revocation, reported, add_decoded, revoke_decoded, accepted_edge, revocation,
  project, apply_record,
}

set_last_sequence-IsIndexed : (n : ℕ) (g : Graph) → IsIndexed g → IsIndexed (set_last_sequence n g)
set_last_sequence-IsIndexed n g v = record {
  digests = v.digests;
  out = v.out;
  inn = v.inn;
  topics = v.topics;
  known = v.known;
}

reported-graph : (o : Graph × Option GraphError) → (reported o).0 ≡ o.0
reported-graph (g, none) = refl
reported-graph (g, some e) = refl

add_decoded-IsIndexed :
    (g : Graph) (d : Result ProjectionError AttestationEdge)
    → IsIndexed g
    → IsIndexed (add_decoded g d).0
add_decoded-IsIndexed g (err e) v = v
add_decoded-IsIndexed g (ok edge) v =
    subst IsIndexed (sym (reported-graph (add_edge (some edge) g)))
      (add_edge-IsIndexed (some edge) g v)

revoke_decoded-IsIndexed :
    (r : StructuralRecord) (g : Graph) (d : Result ProjectionError Revocation)
    → IsIndexed g
    → IsIndexed (revoke_decoded r g d).0
revoke_decoded-IsIndexed r g (err e) v = v
revoke_decoded-IsIndexed r g (ok d) v =
    subst IsIndexed
      (sym (
        reported-graph
          (revoke_edge d.target d.revoker d.role d.at r.record_digest d.reason r.event.sequence g)))
      (revoke_edge-IsIndexed d.target d.revoker d.role d.at r.record_digest d.reason
        r.event.sequence g v)

module _ (crypto : Crypto) (r : StructuralRecord) (g : Graph) where
  -- The projection of a record, whether it fails or not, keeps every index exact.
  pub apply_record-IsIndexed : IsIndexed g → IsIndexed (apply_record crypto r g).0
  unfolding apply_record project
  apply_record-IsIndexed v = ground (
    arith,
    set_last_sequence-IsIndexed r.event.sequence g v,
    add_decoded-IsIndexed g (accepted_edge crypto r) v,
    revoke_decoded-IsIndexed r g (revocation crypto r) v,
  )

-- ===== src/Graph/Store/Branches.antt =====
-- What the two methods that change the graph do, on each of their branches.
use chain_application.Prelude.{
  ℕ, ◌≡◌, ◌≢◌, ◌⊎◌, refl, ap, Bytes, true, false, Option, none, some, arith, bytes_equal_iff,
  lookup, ltb, set, if◌then◌else◌, Bool-cases, Option-cases, inl, inr,
}
use chain_application.Graph.Edge.{AttestationEdge}
use chain_application.Graph.Store.{
  Graph, GraphError, edge_not_found, edge_already_revoked, added, add_edge, revoked, find_edge,
  role_error, revoke_edge, role_proposer, role_subject,
}

pub add_edge_new :
    (edge : AttestationEdge) (g : Graph)
    → lookup edge.record_digest g.edges_by_digest ≡ none
    → add_edge (some edge) g ≡ (added edge g, none)
unfolding add_edge
add_edge_new edge g h = ground arith

pub add_edge_refused :
    (edge : Option AttestationEdge) (g : Graph)
    → (add_edge edge g).1 ≢ none
    → (add_edge edge g).0 ≡ g
unfolding add_edge
add_edge_refused none g h = refl
add_edge_refused (some edge) g h = ground arith

module _ (target revoker : Bytes) (role at : ℕ) (digest reason : Bytes) (seq : ℕ) (g : Graph) where
  pub revoke_edge_missing :
      find_edge target g ≡ none
      → revoke_edge target revoker role at digest reason seq g ≡ (g, some edge_not_found)
  unfolding revoke_edge
  revoke_edge_missing h = ground arith

  module _ (a : ℕ) (edge : AttestationEdge) (found : find_edge target g ≡ some (a, edge)) where
    pub revoke_edge_again :
        edge.is_active ≡ false
        → revoke_edge target revoker role at digest reason seq g ≡ (g, some edge_already_revoked)
    unfolding revoke_edge
    revoke_edge_again h = ground arith

    pub revoke_edge_denied :
        (e : GraphError)
        → edge.is_active ≡ true
        → role_error edge revoker role ≡ some e
        → revoke_edge target revoker role at digest reason seq g ≡ (g, some e)
    unfolding revoke_edge
    revoke_edge_denied e h r = ground arith

    pub revoke_edge_done :
        edge.is_active ≡ true
        → role_error edge revoker role ≡ none
        → revoke_edge target revoker role at digest reason seq g
          ≡ (revoked a role at digest reason seq edge g, none)
    unfolding revoke_edge
    revoke_edge_done h r = ground arith

-- The revoker is the party that the role names.
abbrev pub IsAuthorized : AttestationEdge → Bytes → ℕ → Type 0
IsAuthorized edge revoker role =
    ((role ≡ role_proposer) × (revoker ≡ edge.proposer))
    ⊎ ((role ≡ role_subject) × (revoker ≡ edge.subject))

role_error→IsAuthorized :
    (edge : AttestationEdge) (revoker : Bytes) (role : ℕ)
    → role_error edge revoker role ≡ none
    → IsAuthorized edge revoker role
unfolding role_error
role_error→IsAuthorized edge revoker role h =
    ground (arith, bytes_equal_iff revoker edge.proposer, bytes_equal_iff revoker edge.subject)

IsAuthorized→role_error :
    (edge : AttestationEdge) (revoker : Bytes) (role : ℕ)
    → IsAuthorized edge revoker role
    → role_error edge revoker role ≡ none
unfolding role_error
IsAuthorized→role_error edge revoker role (inl h) =
    ground (arith, bytes_equal_iff revoker edge.proposer)
IsAuthorized→role_error edge revoker role (inr h) =
    ground (arith, bytes_equal_iff revoker edge.subject)

-- The edge that a revocation leaves: no longer active, with the time, the record, the reason and the
-- role of the revocation, and otherwise as it was accepted.
abbrev pub withdrawn_edge : ℕ → ℕ → Bytes → Bytes → AttestationEdge → AttestationEdge
withdrawn_edge role at digest reason before = record {
  record_digest = before.record_digest;
  sequence = before.sequence;
  proposer = before.proposer;
  subject = before.subject;
  topic = before.topic;
  claim_body = before.claim_body;
  proposed_at_unix_ms = before.proposed_at_unix_ms;
  accepted_at_unix_ms = before.accepted_at_unix_ms;
  is_active = false;
  revoked_at_unix_ms = some at;
  revocation_record_digest = some digest;
  revocation_reason = reason;
  revoker_role = role;
}

-- The outcome of a revocation that goes through: the edge at the address of the target is written,
-- the watermark is raised to the sequence number of the record where that is higher, and every other
-- part of the graph is as before.
pub record IsRevoked (target revoker : Bytes) (role at : ℕ) (digest reason : Bytes) (seq : ℕ)
    (g after : Graph) : Type 0 where
  pub address : ℕ
  pub edge : AttestationEdge
  pub found : find_edge target g ≡ some (address, edge)
  pub active : edge.is_active ≡ true
  pub authorized : IsAuthorized edge revoker role
  pub result : after ≡ record {
    ledger_id = g.ledger_id;
    last_sequence = if ltb g.last_sequence seq then seq else g.last_sequence;
    nodes = g.nodes;
    edges_by_digest = g.edges_by_digest;
    out_index = g.out_index;
    in_index = g.in_index;
    topic_index = g.topic_index;
    cells = set g.cells address (withdrawn_edge role at digest reason edge);
  }

module _ (target revoker : Bytes) (role at : ℕ) (digest reason : Bytes) (seq : ℕ) (g : Graph) where
  abbrev outcome : Graph × Option GraphError
  outcome = revoke_edge target revoker role at digest reason seq g

  revoke_cases_at :
      (a : ℕ) (edge : AttestationEdge)
      → find_edge target g ≡ some (a, edge)
      → ((outcome.1 ≢ none) × (outcome.0 ≡ g))
        ⊎ ((outcome.1 ≡ none) × IsRevoked target revoker role at digest reason seq g outcome.0)
  revoke_cases_at a edge found = elim (Bool-cases edge.is_active) [
    | inr dead ↦
        let e = revoke_edge_again target revoker role at digest reason seq g a edge found dead in
        inl (ground (arith, e))
    | inl live ↦ elim (Option-cases (role_error edge revoker role)) [
      | inr (x, bad) ↦
          let e =
            revoke_edge_denied target revoker role at digest reason seq g a edge found x live bad in
          inl (ground (arith, e))
      | inl fine ↦
          let e =
            revoke_edge_done target revoker role at digest reason seq g a edge found live fine in
          inr (
            ap (λ (o : Graph × Option GraphError). o.1) e,
            record {
              address = a;
              edge = edge;
              found = found;
              active = live;
              authorized = role_error→IsAuthorized edge revoker role fine;
              result = ap (λ (o : Graph × Option GraphError). o.0) e;
            },
          )
    ]
  ]

  -- A revocation either fails and changes nothing, or finds an active edge, is made by the party
  -- that its role names, and leaves a graph with the revocation written to that edge, the watermark
  -- raised to the record's sequence number where that is higher, and all else as before.
  pub revoke_edge-cases :
      ((outcome.1 ≢ none) × (outcome.0 ≡ g))
      ⊎ ((outcome.1 ≡ none) × IsRevoked target revoker role at digest reason seq g outcome.0)
  revoke_edge-cases = elim (Option-cases (find_edge target g)) [
    | inl e ↦ inl (ground (arith, revoke_edge_missing target revoker role at digest reason seq g e))
    | inr ((a, edge), e) ↦ revoke_cases_at a edge e
  ]

  -- An active edge is revoked by each of its two parties, in that party's role.
  pub revoke_edge_ok :
      (a : ℕ) (edge : AttestationEdge)
      → find_edge target g ≡ some (a, edge)
      → edge.is_active ≡ true
      → IsAuthorized edge revoker role
      → outcome ≡ (revoked a role at digest reason seq edge g, none)
  revoke_edge_ok a edge found live authorized =
      revoke_edge_done target revoker role at digest reason seq g a edge found live
        (IsAuthorized→role_error edge revoker role authorized)

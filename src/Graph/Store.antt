-- ===== src/Graph/Store.antt =====
-- internal/graph/v1/graph.go. The indexes of the graph hold pointers to shared edges, and a
-- revocation writes through one of them, so the edges are cells of a heap and the indexes hold
-- addresses. The mutex makes each method one step.
pub mod Positions
pub mod Entries
pub mod Branches
pub mod Invariant
pub mod Queries
pub mod Revocation
use chain_application.Prelude.{
  ℕ, suc, Bytes, List, [], ◌∷◌, ◌++◌, Bool, true, false, not, ◌&&◌, ◌||◌, Option, none, some,
  length, set, get_elem?, bytes_equal, lookup, insert, update, add_key, ltb, ◌==◌, if◌then◌else◌,
}
use chain_application.Graph.Edge.{AttestationEdge}

pub data GraphError : Type 0 where
  nil_edge edge_not_found edge_already_revoked unauthorized_revoker duplicate_edge : GraphError
  unknown_revoker_role : ℕ → GraphError

-- The edges that `*AttestationEdge` points to, by address: an edge that is added gets the next
-- address, since its callers have just allocated it.
pub record Graph : Type 0 where
  pub ledger_id : Bytes
  pub last_sequence : ℕ
  pub nodes : List Bytes
  pub edges_by_digest : List (Bytes × ℕ)
  pub out_index : Bytes → List ℕ
  pub in_index : Bytes → List ℕ
  pub topic_index : Bytes → List ℕ
  pub cells : List AttestationEdge

abbrev pub new_graph : Bytes → Graph
new_graph ledger_id = record {
  ledger_id = ledger_id;
  last_sequence = 0;
  nodes = [];
  edges_by_digest = [];
  out_index = λ k. [];
  in_index = λ k. [];
  topic_index = λ k. [];
  cells = [];
}

abbrev pub set_last_sequence : ℕ → Graph → Graph
set_last_sequence seq g = record g { last_sequence = seq }

-- `if seq > g.lastSequence { g.lastSequence = seq }`.
abbrev pub raised : ℕ → ℕ → ℕ
raised seq last = if ltb last seq then seq else last

-- `m[k] = append(m[k], a)`.
abbrev pub append_at : (Bytes → List ℕ) → Bytes → ℕ → Bytes → List ℕ
append_at m k a = update m k (m k ++ a ∷ [])

-- The writes of `AddEdge`, below its guards.
abbrev pub added : AttestationEdge → Graph → Graph
added edge g = record g {
  last_sequence = raised edge.sequence g.last_sequence;
  nodes = add_key edge.subject (add_key edge.proposer g.nodes);
  edges_by_digest = insert edge.record_digest (length g.cells) g.edges_by_digest;
  out_index = append_at g.out_index edge.proposer (length g.cells);
  in_index = append_at g.in_index edge.subject (length g.cells);
  topic_index = append_at g.topic_index edge.topic (length g.cells);
  cells = g.cells ++ edge ∷ [];
}

-- `none` is a nil pointer.
unfoldable pub add_edge : Option AttestationEdge → Graph → Graph × Option GraphError
add_edge none g = (g, some nil_edge)
add_edge (some edge) g = elim (lookup edge.record_digest g.edges_by_digest) [
  | some a ↦ (g, some duplicate_edge)
  | none ↦ (added edge g, none)
]

abbrev pub role_proposer : ℕ
role_proposer = 1

abbrev pub role_subject : ℕ
role_subject = 2

-- The switch on the role: the error that it returns, if any.
unfoldable pub role_error : AttestationEdge → Bytes → ℕ → Option GraphError
role_error edge revoker role =
    if role == role_proposer
    then (if not (bytes_equal revoker edge.proposer) then some unauthorized_revoker else none)
    else if role == role_subject
    then (if not (bytes_equal revoker edge.subject) then some unauthorized_revoker else none)
    else some (unknown_revoker_role role)

abbrev pub revoked_edge : ℕ → ℕ → Bytes → Bytes → AttestationEdge → AttestationEdge
revoked_edge role revoked_at revocation_digest reason edge = record edge {
  is_active = false;
  revoked_at_unix_ms = some revoked_at;
  revocation_record_digest = some revocation_digest;
  revocation_reason = reason;
  revoker_role = role;
}

-- The writes of `RevokeEdge`, through the pointer and to the watermark.
abbrev pub revoked : ℕ → ℕ → ℕ → Bytes → Bytes → ℕ → AttestationEdge → Graph → Graph
revoked a role revoked_at revocation_digest reason seq edge g = record g {
  last_sequence = raised seq g.last_sequence;
  cells = set g.cells a (revoked_edge role revoked_at revocation_digest reason edge);
}

-- The pointer that the map holds, with the edge that it points to.
unfoldable pub find_edge : Bytes → Graph → Option (ℕ × AttestationEdge)
find_edge digest g = elim (lookup digest g.edges_by_digest) [
  | none ↦ none
  | some a ↦ elim (get_elem? g.cells a) [ none ↦ none | some edge ↦ some (a, edge) ]
]

unfoldable pub revoke_edge :
    Bytes → Bytes → ℕ → ℕ → Bytes → Bytes → ℕ → Graph → Graph × Option GraphError
revoke_edge target revoker role revoked_at revocation_digest reason seq g =
    elim (find_edge target g) [
      | none ↦ (g, some edge_not_found)
      | some (a, edge) ↦
          if not edge.is_active
          then (g, some edge_already_revoked)
          else elim (role_error edge revoker role) [
            | some e ↦ (g, some e)
            | none ↦ (revoked a role revoked_at revocation_digest reason seq edge g, none)
          ]
    ]

-- `EdgeByDigest`: the edge behind the pointer.
unfoldable pub edge_by_digest : Bytes → Graph → Option AttestationEdge
unfolding find_edge
edge_by_digest digest g = elim (find_edge digest g) [ none ↦ none | some (a, edge) ↦ some edge ]

-- The loop of the edge queries: the edges behind the pointers that pass the tests.
unfoldable pub select :
    List AttestationEdge → (AttestationEdge → Bool) → List ℕ → List AttestationEdge
select cells keep [] = []
select cells keep (a ∷ rest) = elim (get_elem? cells a) [
  | none ↦ select cells keep rest
  | some edge ↦ if keep edge then edge ∷ select cells keep rest else select cells keep rest
]

-- The two `continue` tests, and the one of `TopicEdges`.
abbrev pub wanted : Bytes → Bool → AttestationEdge → Bool
wanted topic active_only edge =
    not (active_only && not edge.is_active)
    && not (not (bytes_equal topic []) && not (bytes_equal edge.topic topic))

abbrev pub wanted_active : Bool → AttestationEdge → Bool
wanted_active active_only edge = not (active_only && not edge.is_active)

unfoldable pub out_edges : Bytes → Bytes → Bool → Graph → List AttestationEdge
out_edges proposer topic active_only g =
    select g.cells (wanted topic active_only) (g.out_index proposer)

unfoldable pub in_edges : Bytes → Bytes → Bool → Graph → List AttestationEdge
in_edges subject topic active_only g =
    select g.cells (wanted topic active_only) (g.in_index subject)

unfoldable pub topic_edges : Bytes → Bool → Graph → List AttestationEdge
topic_edges topic active_only g = select g.cells (wanted_active active_only) (g.topic_index topic)

unfoldable pub node_count : Graph → ℕ
node_count g = length g.nodes

unfoldable pub edge_count : Graph → ℕ
edge_count g = length g.edges_by_digest

-- The loop over the entries of the digest map.
unfoldable pub count_active : List AttestationEdge → List (Bytes × ℕ) → ℕ
count_active cells [] = 0
count_active cells ((d, a) ∷ m) = elim (get_elem? cells a) [
  | none ↦ count_active cells m
  | some edge ↦ if edge.is_active then suc (count_active cells m) else count_active cells m
]

unfoldable pub active_edge_count : Graph → ℕ
unfolding count_active
active_edge_count g = count_active g.cells g.edges_by_digest

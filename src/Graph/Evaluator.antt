-- ===== src/Graph/Evaluator.antt =====
-- internal/graph/v1/evaluator.go: the search for paths of active endorsements from the trust roots to
-- a target, and the confidence that is read off them. The accumulators that the search writes to are
-- a state, the map of visited identities with them, since it is written before a recursive call and
-- written back after it.
pub mod Paths
pub mod Offers
pub mod Routes
pub mod Growth
pub mod Scored
pub mod Outcome
use chain_application.Prelude.{
  ℕ, zero, suc, Bytes, List, [], ◌∷◌, ◌++◌, map, Bool, true, false, Option, none, some, Result, ok,
  err, ◌>>=◌, ltb, bytes_equal, bytes_less, encode_hex, sort_by, update, add_key, lookup, insert,
  pos_part, Floats, if◌then◌else◌,
}
use chain_application.Graph.Edge.{AttestationEdge}
use chain_application.Graph.Store.{Graph, edge_by_digest, out_edges}
use chain_application.Graph.Policy.{EvaluationPolicy, PolicyError, validate}
use chain_application.Graph.Provenance.{PathHop, PathTrace, ConfidenceResult, deduplicate_digests}

-- What `findPaths` writes to through its pointers and maps.
pub record Found (Float : Type 0) : Type 0 where
  pub all_paths : List (PathTrace Float)
  pub nodes : List Bytes
  pub edges : List (Bytes × AttestationEdge)
  pub digests : List Bytes

pub record Search (Float : Type 0) : Type 0 where
  pub visited : Bytes → Bool
  pub found : Found Float

abbrev pub nothing_found : {Float : Type 0} → Found Float
nothing_found = record { all_paths = []; nodes = []; edges = []; digests = [] }

abbrev pub by_sequence : AttestationEdge → AttestationEdge → Bool
by_sequence a b = ltb a.sequence b.sequence

abbrev pub hop_of : Bytes → AttestationEdge → PathHop
hop_of current edge = record {
  from = current;
  to = edge.subject;
  topic = edge.topic;
  record_digest = edge.record_digest;
  sequence = edge.sequence;
}

module _ {Float : Type 0} (g : Graph) where
  -- The loop over the hops of a path that reached the target.
  unfoldable pub add_hops : List PathHop → Found Float → Found Float
  add_hops [] f = f
  add_hops (h ∷ hs) f = add_hops hs (record f {
    nodes = add_key h.to (add_key h.from f.nodes);
    edges = elim (edge_by_digest h.record_digest g) [
      | none ↦ f.edges
      | some edge ↦ insert h.record_digest edge f.edges
    ];
    digests = f.digests ++ h.record_digest ∷ [];
  })

  unfoldable pub add_path : Bytes → PathTrace Float → Found Float → Found Float
  add_path target t f = add_hops t.hops (record f {
    all_paths = f.all_paths ++ t ∷ [];
    nodes = add_key target (add_key t.root f.nodes);
  })

module _ (floats : Floats) (g : Graph) (policy : EvaluationPolicy floats.Float)
    (target : Bytes) where
  open floats use {Float, literal, times, minus, maximum, minimum, less}

  -- The active edges out of an identity, in the order of their sequence numbers.
  abbrev pub sorted_edges : Bytes → List AttestationEdge
  sorted_edges current = sort_by by_sequence (out_edges current policy.topic true g)

  -- A call of `findPaths` from here: the identity, its weight, the hops to it and the state.
  abbrev pub Visit : Type 0
  Visit = Bytes → Float → List PathHop → Search Float → Search Float

  -- `visited[neighbor] = true`, the recursive call, `visited[neighbor] = false`.
  abbrev pub descend : Visit → Bytes → Float → List PathHop → Search Float → Search Float
  descend visit neighbor weight hops s =
      let after =
        visit neighbor weight hops (record s { visited = update s.visited neighbor true }) in
      record after { visited = update after.visited neighbor false }

  -- The body of the loop over the edges; `left` is `MaxHops - depth`, and `visit` the search at the
  -- depth below.
  unfoldable pub visit_edge :
      Bytes
      → Float
      → ℕ
      → Visit
      → Bytes
      → Float
      → List PathHop
      → AttestationEdge
      → Search Float
      → Search Float
  visit_edge root root_weight left visit current weight hops edge s =
      let path_weight = times weight policy.decay_factor in
      let next_hops = hops ++ hop_of current edge ∷ [] in
      if s.visited edge.subject
      then s
      else if less path_weight policy.min_confidence
      then s
      else if bytes_equal edge.subject target
      then record s {
        found =
            add_path g target
              (record {
                root = root;
                root_weight = root_weight;
                hops = next_hops;
                path_weight = path_weight;
              })
              s.found;
      }
      else if ltb 0 left
      then descend visit edge.subject path_weight next_hops s
      else s

  unfoldable pub visit_edges :
      (AttestationEdge → Search Float → Search Float)
      → List AttestationEdge
      → Search Float
      → Search Float
  visit_edges body [] s = s
  visit_edges body (e ∷ es) s = visit_edges body es (body e s)

  -- `findPaths`, where the depths that are left are `MaxHops + 1 - depth`.
  unfoldable pub find_paths : Bytes → Float → ℕ → Visit
  find_paths root root_weight zero current weight hops s = s
  find_paths root root_weight (suc left) current weight hops s =
      visit_edges
        (visit_edge root root_weight left (find_paths root root_weight left) current weight hops)
        (sorted_edges current) s

  abbrev pub only_visited : Bytes → Bytes → Bool
  only_visited root = update (λ k. false) root true

  -- The body of the loop over the trust roots.
  unfoldable pub search_root : Bytes × Float → Found Float → Found Float
  search_root (root, weight) f =
      if bytes_equal root target
      then record f { nodes = add_key target f.nodes }
      else (find_paths root weight (pos_part policy.max_hops) root weight []
          (record { visited = only_visited root; found = f })).found

  unfoldable pub search_roots : List (Bytes × Float) → Found Float → Found Float
  search_roots [] f = f
  search_roots (r ∷ rs) f = search_roots rs (search_root r f)

  -- The product over the paths.
  unfoldable pub unconfidence : Float → List (PathTrace Float) → Float
  unconfidence u [] = u
  unconfidence u (t ∷ ts) = unconfidence (times u (minus (literal 1 0) t.path_weight)) ts

  abbrev pub direct_trust : Float
  direct_trust = elim (lookup target policy.trust_roots) [ none ↦ literal 0 0 | some w ↦ w ]

  abbrev pub by_hex : Bytes → Bytes → Bool
  by_hex a b = bytes_less (encode_hex a) (encode_hex b)

  abbrev pub result_of : Found Float → ConfidenceResult Float
  result_of f = record {
    target = target;
    topic = policy.topic;
    confidence_score = maximum (literal 0 0) (
        minimum (literal 1 0)
          (minus (literal 1 0) (unconfidence (minus (literal 1 0) direct_trust) f.all_paths)));
    algorithm = policy.algorithm_version;
    evaluated_at_sequence = g.last_sequence;
    contributing_paths = f.all_paths;
    contributing_records = deduplicate_digests f.digests;
    provenance_subgraph = record {
      nodes = sort_by by_hex f.nodes;
      edges = sort_by by_sequence (map (λ e. e.1) f.edges);
    };
  }

  -- `Evaluate`, below the validation of the policy.
  unfoldable pub evaluated : ConfidenceResult Float
  evaluated =
      result_of (search_roots (sort_by (λ a b. by_hex a.0 b.0) policy.trust_roots) nothing_found)

unfoldable pub evaluate :
    (floats : Floats)
    → Graph
    → EvaluationPolicy floats.Float
    → Bytes
    → Result PolicyError (ConfidenceResult floats.Float)
evaluate floats g policy target = do
  checked ← validate floats policy
  ok (evaluated floats g checked target)

-- ===== src/Graph/Store/Invariant.antt =====
-- The invariant of the graph: its indexes are those of its list of edges, and every method keeps it.
use chain_application.Prelude.{
  ℕ, zero, suc, ◌≡◌, refl, ap, sym, subst, ◌∙◌, Bytes, List, [], ◌∷◌, ◌++◌, Bool, false, ◌||◌,
  Option, none, some, arith, length, get_elem?, set, bytes_equal, bytes_equal→eq, lookup,
  insert_new, update, has_key, add_key, has_key-add_key, Bool-cases, Option-cases, inl, inr,
}
use chain_application.Graph.Edge.{AttestationEdge}
use chain_application.Graph.Store.{
  Graph, GraphError, new_graph, append_at, added, add_edge, revoked, revoked_edge, find_edge,
  revoke_edge,
}
use chain_application.Graph.Store.Branches.{add_edge_new, add_edge_refused, revoke_edge-cases}
use chain_application.Graph.Store.Positions.{positions, positions-append, positions-set}
use chain_application.Graph.Store.Entries.{entries, entries-append, entries-set}

abbrev Edges : Type 0
Edges = List AttestationEdge

-- The edge has this key, at one of its three keyed fields.
unfoldable pub has : (AttestationEdge → Bytes) → Bytes → AttestationEdge → Bool
has key k e = bytes_equal (key e) k

abbrev pub by_proposer : AttestationEdge → Bytes
by_proposer e = e.proposer

abbrev pub by_subject : AttestationEdge → Bytes
by_subject e = e.subject

abbrev pub by_topic : AttestationEdge → Bytes
by_topic e = e.topic

-- Some edge has the identity at one of its ends.
unfoldable pub mentioned : Bytes → Edges → Bool
mentioned k [] = false
mentioned k (e ∷ es) = bytes_equal e.proposer k || bytes_equal e.subject k || mentioned k es

pub record IsIndexed (g : Graph) : Type 0 where
  pub digests : g.edges_by_digest ≡ entries 0 g.cells
  pub out : (k : Bytes) → g.out_index k ≡ positions (has by_proposer k) 0 g.cells
  pub inn : (k : Bytes) → g.in_index k ≡ positions (has by_subject k) 0 g.cells
  pub topics : (k : Bytes) → g.topic_index k ≡ positions (has by_topic k) 0 g.cells
  pub known : (k : Bytes) → has_key k g.nodes ≡ mentioned k g.cells

pub new_graph-IsIndexed : (ledger_id : Bytes) → IsIndexed (new_graph ledger_id)
unfolding entries positions has_key mentioned
new_graph-IsIndexed ledger_id = record {
  digests = refl;
  out = λ k. refl;
  inn = λ k. refl;
  topics = λ k. refl;
  known = λ k. refl;
}

-- Appending the new address under the new edge's key keeps an index exact.
append_at-positions :
    (key : AttestationEdge → Bytes) (m : Bytes → List ℕ) (es : Edges) (e : AttestationEdge)
    → ((k : Bytes) → m k ≡ positions (has key k) 0 es)
    → (j : Bytes) → append_at m (key e) (length es) j ≡ positions (has key j) 0 (es ++ e ∷ [])
unfolding update has
append_at-positions key m es e h j = elim (Bool-cases (bytes_equal (key e) j)) [
  | inr other ↦ ground (arith, h j, positions-append (has key j) 0 es e)
  | inl same ↦
      ground (arith, h j, ap m (bytes_equal→eq (key e) j same), positions-append (has key j) 0 es e)
]

mentioned-append :
    (k : Bytes) (es : Edges) (e : AttestationEdge)
    → mentioned k (es ++ e ∷ [])
      ≡ (mentioned k es || bytes_equal e.proposer k || bytes_equal e.subject k)
unfolding mentioned
mentioned-append k [] e = ground arith
mentioned-append k (x ∷ xs) e = ground (arith, mentioned-append k xs e)

mentioned-set :
    (k : Bytes) (es : Edges) (i : ℕ) (old new : AttestationEdge)
    → get_elem? es i ≡ some old
    → new.proposer ≡ old.proposer
    → new.subject ≡ old.subject
    → mentioned k (set es i new) ≡ mentioned k es
unfolding mentioned
mentioned-set k [] i old new h p s = refl
mentioned-set k (x ∷ xs) zero old new h p s = ground arith
mentioned-set k (x ∷ xs) (suc i) old new h p s = ground (arith, mentioned-set k xs i old new)

-- A new edge with a new digest keeps the invariant.
added-IsIndexed :
    (edge : AttestationEdge) (g : Graph)
    → lookup edge.record_digest g.edges_by_digest ≡ none
    → IsIndexed g
    → IsIndexed (added edge g)
added-IsIndexed edge g new v = record {
  digests =
      insert_new edge.record_digest (length g.cells) g.edges_by_digest new
      ∙ ap (λ m. m ++ (edge.record_digest, length g.cells) ∷ []) v.digests
      ∙ sym (entries_snoc edge);
  out = append_at-positions by_proposer g.out_index g.cells edge v.out;
  inn = append_at-positions by_subject g.in_index g.cells edge v.inn;
  topics = append_at-positions by_topic g.topic_index g.cells edge v.topics;
  known = λ k. ground (
    arith,
    has_key-add_key k edge.subject (add_key edge.proposer g.nodes),
    has_key-add_key k edge.proposer g.nodes,
    v.known k,
    mentioned-append k g.cells edge,
  );
}
  where
    entries_snoc :
        (e : AttestationEdge)
        → entries 0 (g.cells ++ e ∷ [])
          ≡ entries 0 g.cells ++ (e.record_digest, length g.cells) ∷ []
    entries_snoc e = ground (arith, entries-append 0 g.cells e)

-- The edge that `find_edge` returns is the cell at the address.
pub find_edge-held :
    (d : Bytes) (g : Graph) (a : ℕ) (edge : AttestationEdge)
    → find_edge d g ≡ some (a, edge)
    → get_elem? g.cells a ≡ some edge
unfolding find_edge
find_edge-held d g a edge h = ground arith

revoked-IsIndexed :
    (g : Graph) (a role at : ℕ) (digest reason : Bytes) (seq : ℕ) (edge : AttestationEdge)
    → get_elem? g.cells a ≡ some edge
    → IsIndexed g
    → IsIndexed (revoked a role at digest reason seq edge g)
unfolding has
revoked-IsIndexed g a role at digest reason seq edge held v = record {
  digests = v.digests ∙ sym (entries-set 0 g.cells a edge new held refl);
  out = λ k. v.out k ∙ sym (positions-set (has by_proposer k) 0 g.cells a edge new held refl);
  inn = λ k. v.inn k ∙ sym (positions-set (has by_subject k) 0 g.cells a edge new held refl);
  topics = λ k. v.topics k ∙ sym (positions-set (has by_topic k) 0 g.cells a edge new held refl);
  known = λ k. v.known k ∙ sym (mentioned-set k g.cells a edge new held refl refl);
}
  where
    new : AttestationEdge
    new = revoked_edge role at digest reason edge

-- Adding an edge, whether it is refused or not, keeps every index exact.
pub add_edge-IsIndexed :
    (edge : Option AttestationEdge) (g : Graph) → IsIndexed g → IsIndexed (add_edge edge g).0
unfolding add_edge
add_edge-IsIndexed none g v = v
add_edge-IsIndexed (some edge) g v =
    elim (Option-cases (lookup edge.record_digest g.edges_by_digest)) [
      | inl new ↦
          subst (λ (o : Graph × Option GraphError). IsIndexed o.0) (sym (add_edge_new edge g new))
            (added-IsIndexed edge g new v)
      | inr (a, old) ↦ subst IsIndexed (sym (add_edge_refused (some edge) g (ground arith))) v
    ]

-- Revoking an edge, whether it is refused or not, keeps every index exact.
pub revoke_edge-IsIndexed :
    (target revoker : Bytes) (role at : ℕ) (digest reason : Bytes) (seq : ℕ) (g : Graph)
    → IsIndexed g
    → IsIndexed (revoke_edge target revoker role at digest reason seq g).0
revoke_edge-IsIndexed target revoker role at digest reason seq g v =
    elim (revoke_edge-cases target revoker role at digest reason seq g) [
      | inl refused ↦ subst IsIndexed (sym refused.1) v
      | inr (fine, r) ↦ subst IsIndexed (sym r.result) (
          revoked-IsIndexed g r.address role at digest reason seq r.edge
            (find_edge-held target g r.address r.edge r.found) v)
    ]

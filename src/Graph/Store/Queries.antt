-- ===== src/Graph/Store/Queries.antt =====
-- The queries, against the list of the graph's edges in the order of their admission.
use chain_application.Prelude.{
  ℕ, suc, ◌≡◌, refl, ap, ◌∙◌, Bytes, List, [], ◌∷◌, ◌++◌, Bool, ◌&&◌, ◌||◌, not, Option, none, some,
  arith, length, filter, bytes_equal, lookup, has_key, Option-cases, inl, inr, if◌then◌else◌,
}
use chain_application.Graph.Edge.{AttestationEdge}
use chain_application.Graph.Store.{
  Graph, wanted, wanted_active, out_edges, in_edges, topic_edges, edge_count, count_active,
  active_edge_count, find_edge, edge_by_digest,
}
use chain_application.Graph.Store.Positions.{
  select-positions, get_elem?-middle, snoc-append, length-snoc,
}
use chain_application.Graph.Store.Entries.{
  entries, length-entries, find_from, find_from_sound, lookup-entries,
}
use chain_application.Graph.Store.Invariant.{
  IsIndexed, has, by_proposer, by_subject, by_topic, mentioned,
}

abbrev Edges : Type 0
Edges = List AttestationEdge

-- The abstract graph: the edge with a digest, in a list of edges.
unfoldable pub edge_with : Bytes → Edges → Option AttestationEdge
edge_with d [] = none
edge_with d (e ∷ es) = if bytes_equal e.record_digest d then some e else edge_with d es

edge_with-find_from :
    (n : ℕ) (d : Bytes) (es : Edges)
    → edge_with d es ≡ elim (find_from n d es) [ none ↦ none | some (a, e) ↦ some e ]
unfolding edge_with find_from
edge_with-find_from n d [] = refl
edge_with-find_from n d (e ∷ es) = ground (arith, edge_with-find_from (suc n) d es)

pub find_edge-find_from :
    (d : Bytes) (g : Graph) → IsIndexed g → find_edge d g ≡ find_from 0 d g.cells
unfolding find_edge
find_edge-find_from d g v = elim (Option-cases (find_from 0 d g.cells)) [
  | inl missing ↦ ground (arith, ap (lookup d) v.digests, lookup-entries d 0 g.cells)
  | inr ((a, e), found) ↦
      let (i, at, held, same) = find_from_sound 0 d g.cells a e found in
      let here : a ≡ i = omega arith in
      ground (arith, ap (lookup d) v.digests, lookup-entries d 0 g.cells, held, here)
]

count_active-entries :
    (pre es : Edges)
    → count_active (pre ++ es) (entries (length pre) es) ≡ length (filter (λ e. e.is_active) es)
unfolding count_active entries
count_active-entries pre [] = refl
count_active-entries pre (e ∷ es) = ground (
  arith,
  get_elem?-middle pre e es,
  snoc-append pre e es,
  length-snoc pre e,
  count_active-entries (pre ++ e ∷ []) es,
)

filter-congr :
    (p q : AttestationEdge → Bool) (es : Edges)
    → ((e : AttestationEdge) → p e ≡ q e)
    → filter p es ≡ filter q es
filter-congr p q [] h = refl
filter-congr p q (e ∷ es) h = ground (arith, h e, filter-congr p q es h)

-- What a caller asks for: a topic, where the empty one stands for all, and whether revoked edges
-- are left out.
abbrev pub of_topic : Bytes → AttestationEdge → Bool
of_topic t e = bytes_equal t [] || bytes_equal e.topic t

abbrev pub of_state : Bool → AttestationEdge → Bool
of_state active_only e = not active_only || e.is_active

wanted-eq :
    (b : Bool) (t : Bytes) (active : Bool) (e : AttestationEdge)
    → (b && wanted t active e) ≡ (b && (of_topic t e && of_state active e))
wanted-eq b t active e = ground arith

wanted_active-eq :
    (b : Bool) (active : Bool) (e : AttestationEdge)
    → (b && wanted_active active e) ≡ (b && of_state active e)
wanted_active-eq b active e = ground arith

-- What every query returns, as a function of the list of edges alone.
pub record AnswersFromList (g : Graph) : Type 0 where
  pub out :
      (k t : Bytes) (active : Bool)
      → out_edges k t active g
        ≡ filter (λ e. bytes_equal e.proposer k && (of_topic t e && of_state active e)) g.cells
  pub inn :
      (k t : Bytes) (active : Bool)
      → in_edges k t active g
        ≡ filter (λ e. bytes_equal e.subject k && (of_topic t e && of_state active e)) g.cells
  pub topics :
      (t : Bytes) (active : Bool)
      → topic_edges t active g ≡ filter (λ e. bytes_equal e.topic t && of_state active e) g.cells
  pub by_digest : (d : Bytes) → edge_by_digest d g ≡ edge_with d g.cells
  pub known : (k : Bytes) → has_key k g.nodes ≡ mentioned k g.cells
  pub edges : edge_count g ≡ length g.cells
  pub active_edges : active_edge_count g ≡ length (filter (λ e. e.is_active) g.cells)

-- Where the indexes are exact, every query returns the edges of the graph's list that it asks for,
-- in the order of their admission, and the counts are those of the list: the edges of a proposer
-- or a subject, of one topic or of all, and of a topic, with the revoked ones or without; the first
-- edge with a digest; whether an identity stands at an edge; all edges; the active edges.
pub IsIndexed-AnswersFromList : (g : Graph) → IsIndexed g → AnswersFromList g
unfolding out_edges in_edges topic_edges edge_by_digest edge_count active_edge_count has
IsIndexed-AnswersFromList g v = record {
  out = λ k t active. rw (v.out k) (
      select-positions (has by_proposer k) (wanted t active) g.cells
      ∙ filter-congr _ _ g.cells (λ e. wanted-eq (bytes_equal e.proposer k) t active e));
  inn = λ k t active. rw (v.inn k) (
      select-positions (has by_subject k) (wanted t active) g.cells
      ∙ filter-congr _ _ g.cells (λ e. wanted-eq (bytes_equal e.subject k) t active e));
  topics = λ t active. rw (v.topics t) (
      select-positions (has by_topic t) (wanted_active active) g.cells
      ∙ filter-congr _ _ g.cells (λ e. wanted_active-eq (bytes_equal e.topic t) active e));
  by_digest = λ d. ground (arith, find_edge-find_from d g v, edge_with-find_from 0 d g.cells);
  known = v.known;
  edges = ap length v.digests ∙ length-entries 0 g.cells;
  active_edges = ap (count_active g.cells) v.digests ∙ count_active-entries [] g.cells;
}

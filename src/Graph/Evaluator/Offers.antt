-- ===== src/Graph/Evaluator/Offers.antt =====
-- The endorsements that the search goes on over, and the lists of them that lead to the target.
use chain_application.Prelude.{
  ◌≡◌, ◌↔◌, ◌⊎◌, ◌&&◌, sym, subst, arith, Bytes, List, [], ◌∷◌, Bool, true, false, bytes_equal,
  bytes_equal_iff, update, Memᴰ, mem-filter, sort_by, mem-sort_by,
}
use chain_application.Graph.Edge.{AttestationEdge}
use chain_application.Graph.Store.{Graph, out_edges}
use chain_application.Graph.Store.Invariant.{IsIndexed}
use chain_application.Graph.Store.Queries.{of_topic, of_state, IsIndexed-AnswersFromList}
use chain_application.Graph.Provenance.{PathHop}
use chain_application.Graph.Evaluator.{by_sequence}

-- An active endorsement of the graph that this identity made, of the topic asked for.
pub record IsOffered (g : Graph) (topic current : Bytes) (e : AttestationEdge) : Type 0 where
  pub held : Memᴰ e g.cells
  pub active : e.is_active ≡ true
  pub made : e.proposer ≡ current
  pub topical : (topic ≡ []) ⊎ (e.topic ≡ topic)

-- Each endorsement is made by the subject of the one before, and the last one's subject is the target.
abbrev pub Leads : Graph → Bytes → Bytes → Bytes → List AttestationEdge → Type 0
Leads g topic target current [] = current ≡ target
Leads g topic target current (e ∷ es) =
    IsOffered g topic current e × Leads g topic target e.subject es

-- No identity is met that was visited before, or twice.
abbrev pub IsSimple : (Bytes → Bool) → List AttestationEdge → Type 0
IsSimple visited [] = Unit {0}
IsSimple visited (e ∷ es) =
    (visited e.subject ≡ false) × IsSimple (update visited e.subject true) es

-- The hops of a path.
abbrev pub hops_of : Bytes → List AttestationEdge → List PathHop
hops_of current [] = []
hops_of current (e ∷ es) =
    record {
      from = current;
      to = e.subject;
      topic = e.topic;
      record_digest = e.record_digest;
      sequence = e.sequence;
    }
    ∷ hops_of e.subject es

wanted-IsOffered :
    (g : Graph) (topic current : Bytes) (e : AttestationEdge)
    → Memᴰ e g.cells
      × ((bytes_equal e.proposer current && (of_topic topic e && of_state true e)) ≡ true)
    → IsOffered g topic current e
wanted-IsOffered g topic current e (m, w) = record {
  held = m;
  active = ground arith;
  made = ground (arith, bytes_equal_iff e.proposer current);
  topical = ground (arith, bytes_equal_iff topic [], bytes_equal_iff e.topic topic);
}

IsOffered-wanted :
    (g : Graph) (topic current : Bytes) (e : AttestationEdge)
    → IsOffered g topic current e
    → (bytes_equal e.proposer current && (of_topic topic e && of_state true e)) ≡ true
IsOffered-wanted g topic current e o = ground (
  arith,
  o.active,
  o.made,
  o.topical,
  bytes_equal_iff e.proposer current,
  bytes_equal_iff topic [],
  bytes_equal_iff e.topic topic,
)

pub out_edges_iff :
    (g : Graph)
    → IsIndexed g
    → (topic current : Bytes) (e : AttestationEdge)
    → Memᴰ e (sort_by by_sequence (out_edges current topic true g)) ↔ IsOffered g topic current e
out_edges_iff g v topic current e =
    let answers = IsIndexed-AnswersFromList g v in
    let sorted = mem-sort_by by_sequence e (out_edges current topic true g) in
    let wants = λ (x : AttestationEdge).
      bytes_equal x.proposer current && (of_topic topic x && of_state true x) in
    let kept = mem-filter wants e g.cells in
    let same = answers.out current topic true in
    (
      λ m. wanted-IsOffered g topic current e (kept.0 (subst (Memᴰ e) same (sorted.0 m))),
      λ o.
          sorted.1
            (subst (Memᴰ e) (sym same) (kept.1 (o.held, IsOffered-wanted g topic current e o))),
    )

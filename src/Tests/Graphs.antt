-- ===== src/Tests/Graphs.antt =====
-- A graph with two endorsements, and the theorems of the graph at it.
use chain_application.Prelude.{
  ◌≡◌, ◌≢◌, ◌⊎◌, refl, Bytes, [], ◌∷◌, some, none, bytes_equal, lookup, insert, update, ascii,
}
use chain_application.Graph.Edge.{AttestationEdge, new_attestation_edge}
use chain_application.Graph.Store.{
  Graph, new_graph, add_edge, revoke_edge, find_edge, role_error, edge_by_digest, out_edges, select,
}
use chain_application.Graph.Store.Branches.{IsRevoked, revoke_edge-cases}
use chain_application.Graph.Store.Invariant.{
  IsIndexed, new_graph-IsIndexed, add_edge-IsIndexed, revoke_edge-IsIndexed,
}
use chain_application.Graph.Store.Queries.{AnswersFromList, IsIndexed-AnswersFromList}
use chain_application.Graph.Store.Revocation.{IsVisible, revoke_edge-IsVisible}

-- What a run of the graph computes with.
graph_code : Unit {0}
unfolding bytes_equal lookup insert update add_edge revoke_edge find_edge role_error edge_by_digest
    out_edges select
graph_code = tt

abbrev pub ann : Bytes
ann = 4 ∷ 1 ∷ []

abbrev pub bob : Bytes
bob = 4 ∷ 2 ∷ []

abbrev first_digest : Bytes
first_digest = 10 ∷ []

abbrev second_digest : Bytes
second_digest = 11 ∷ []

abbrev first_edge : AttestationEdge
first_edge = new_attestation_edge first_digest 2 ann bob (ascii "go") (1 ∷ []) 5 6

abbrev second_edge : AttestationEdge
second_edge = new_attestation_edge second_digest 3 bob ann (ascii "sql") (2 ∷ []) 7 8

abbrev one : Graph
one = (add_edge (some first_edge) (new_graph [])).0

abbrev pub two : Graph
two = (add_edge (some second_edge) one).0

one-IsIndexed : IsIndexed one
one-IsIndexed = add_edge-IsIndexed (some first_edge) (new_graph []) (new_graph-IsIndexed [])

add_edge-IsIndexed_example : IsIndexed (add_edge (some second_edge) one).0
add_edge-IsIndexed_example = add_edge-IsIndexed (some second_edge) one one-IsIndexed

pub two-IsIndexed : IsIndexed two
two-IsIndexed = add_edge-IsIndexed (some second_edge) one one-IsIndexed

revoke_edge-IsIndexed_example :
    IsIndexed (revoke_edge first_digest ann 1 9 (12 ∷ []) (ascii "left") 4 two).0
revoke_edge-IsIndexed_example =
    revoke_edge-IsIndexed first_digest ann 1 9 (12 ∷ []) (ascii "left") 4 two two-IsIndexed

IsIndexed-AnswersFromList_example : AnswersFromList two
IsIndexed-AnswersFromList_example = IsIndexed-AnswersFromList two two-IsIndexed

revocation_succeeds : (revoke_edge first_digest ann 1 9 (12 ∷ []) (ascii "left") 4 two).1 ≡ none
unfolding graph_code
revocation_succeeds = refl

revoke_edge-IsVisible_example :
    (edge : AttestationEdge) × IsVisible first_digest ann 1 9
      (12 ∷ [])
      (ascii "left")
      4
      two
      two-IsIndexed
      edge
revoke_edge-IsVisible_example =
    revoke_edge-IsVisible first_digest ann 1 9 (12 ∷ []) (ascii "left") 4 two two-IsIndexed
      revocation_succeeds

revoke_edge-cases_example :
    (((revoke_edge first_digest bob 1 9 (12 ∷ []) [] 4 two).1 ≢ none)
      × ((revoke_edge first_digest bob 1 9 (12 ∷ []) [] 4 two).0 ≡ two))
    ⊎ (((revoke_edge first_digest bob 1 9 (12 ∷ []) [] 4 two).1 ≡ none)
        × IsRevoked first_digest bob 1 9
            (12 ∷ [])
            []
            4
            two
            (revoke_edge first_digest bob 1 9 (12 ∷ []) [] 4 two).0)
revoke_edge-cases_example = revoke_edge-cases first_digest bob 1 9 (12 ∷ []) [] 4 two

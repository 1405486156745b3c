-- ===== src/Graph/Provenance.antt =====
-- internal/graph/v1/provenance.go: the paths and records that an evaluation rests on.
pub mod Digests
use chain_application.Prelude.{
  ℕ, Bytes, List, [], ◌∷◌, bytes_equal, bytes_less, sort_by, if◌then◌else◌,
}
use chain_application.Graph.Edge.{AttestationEdge}

pub record PathHop : Type 0 where
  pub from : Bytes
  pub to : Bytes
  pub topic : Bytes
  pub record_digest : Bytes
  pub sequence : ℕ

pub record PathTrace (Float : Type 0) : Type 0 where
  pub root : Bytes
  pub root_weight : Float
  pub hops : List PathHop
  pub path_weight : Float

pub record ProvenanceSubgraph : Type 0 where
  pub nodes : List Bytes
  pub edges : List AttestationEdge

-- Without the explanation, a text about the other fields.
pub record ConfidenceResult (Float : Type 0) : Type 0 where
  pub target : Bytes
  pub topic : Bytes
  pub confidence_score : Float
  pub algorithm : Bytes
  pub evaluated_at_sequence : ℕ
  pub contributing_paths : List (PathTrace Float)
  pub contributing_records : List Bytes
  pub provenance_subgraph : ProvenanceSubgraph

-- The loop of `DeduplicateDigests`, after the digest before.
unfoldable pub new_after : Bytes → List Bytes → List Bytes
new_after previous [] = []
new_after previous (d ∷ ds) =
    let rest = new_after d ds in if bytes_equal d previous then rest else d ∷ rest

abbrev pub without_repeats : List Bytes → List Bytes
without_repeats [] = []
without_repeats (d ∷ ds) = d ∷ new_after d ds

-- `nil` is the empty list here.
unfoldable pub deduplicate_digests : List Bytes → List Bytes
deduplicate_digests digests = without_repeats (sort_by bytes_less digests)

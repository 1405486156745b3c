-- ===== src/Graph.antt =====
-- The attestation graph (internal/graph/v1).
pub mod Edge
pub mod Store
pub mod Identity
pub mod Policy
pub mod Provenance
pub mod Evaluator
pub mod Projector

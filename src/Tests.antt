-- ===== src/Tests.antt =====
-- Concrete inputs: an encoding and a hash that behave as documented, and the theorems applied.
pub mod Encoding
pub mod Ledgers
pub mod Graphs
pub mod Evaluations
pub mod Signing
pub mod Projections
pub mod Stores
pub mod Admissions
pub mod Processes
pub mod Handlers

-- ===== src/Ledger.antt =====
-- The version 1 ledger protocol kernel (internal/ledger/v1): one module for each of its files.
pub mod Constants
pub mod Errors
pub mod Digests
pub mod Codec
pub mod Wires
pub mod Event
pub mod Record
pub mod Chain

-- ===== src/Endorsement.antt =====
-- Endorsement payloads (internal/endorsement/v1/payload.go).
pub mod Wires
pub mod Statements
pub mod Payloads
pub mod Signatures
pub mod Verification
pub mod Revocations
pub mod Roundtrips

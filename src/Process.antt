-- ===== src/Process.antt =====
-- cmd/chain-api/main.go: the process. Faults has the errors of the logger, Fallback the bounded
-- message, Run the start and the end of the process.
pub mod Faults
pub mod Remaining
pub mod Fallback
pub mod Run
pub mod Closed
pub mod Exit

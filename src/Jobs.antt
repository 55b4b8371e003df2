-- ===== src/Jobs.antt =====
-- The message queue: app/repositories/jobs.py. Each function of that file is one transaction on
-- the tables. Statements that read NOW() take the transaction's time as an argument.
pub mod Claim
pub mod Lease
pub mod Provider
pub mod Enqueue
pub mod Coherent
pub mod Edges
pub mod Steps
pub mod Due
pub mod Attempts
pub mod Stranded
pub mod Served
pub mod Callbacks
pub mod Recovery
pub mod RowSteps

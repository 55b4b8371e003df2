-- ===== src/Examples.antt =====
-- Concrete tables and runs: the tests of the definitions, and the theorems at inputs that meet
-- their conditions.
pub mod Tables
pub mod Runs
mod Rounds
mod Inbox
mod Forms
mod Workflows
mod Replies
mod Notices
mod Reviews
mod Passes

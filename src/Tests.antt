-- ===== src/Tests.antt =====
-- Runs of the models at concrete inputs.
pub mod JobRuns
pub mod Access
pub mod Bots
pub mod Talk
pub mod Reporting
pub mod Contexts
pub mod Tooling
pub mod Login
pub mod Turns
pub mod Journaling
pub mod Ledgers
pub mod Effects
pub mod Sourcing

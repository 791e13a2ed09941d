-- ===== src/Durable.antt =====
-- The runtime ledger in PostgreSQL (platform/src/vda_platform/jobs).
pub mod Tables
pub mod Events
pub mod Runs
pub mod Operations
pub mod Worker

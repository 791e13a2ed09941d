-- ===== src/Jobs.antt =====
-- packages/platform/src/vda_platform/jobs: the in-memory job ledger and its worker.
pub mod Job
pub mod Ledger
pub mod Worker

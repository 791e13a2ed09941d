-- ===== src/Reports.antt =====
-- packages/data_profiling/src/vda_data/reports and evidence: reports and what they rest on.
pub mod Evidence
pub mod Workflow

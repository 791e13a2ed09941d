-- ===== src/Identity.antt =====
-- packages/platform/src/vda_platform/identity: who may do what.
pub mod Directory
pub mod Sessions

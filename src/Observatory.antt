-- ===== src/Observatory.antt =====
-- packages/platform/src/vda_platform/observatory: the journal of what bots did.
pub mod Journal

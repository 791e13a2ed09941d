-- ===== src/Memory.antt =====
-- packages/platform/src/vda_platform/memory: what a bot is shown.
pub mod Context

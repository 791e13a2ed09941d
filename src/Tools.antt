-- ===== src/Tools.antt =====
-- packages/platform/src/vda_platform/tools: what a bot may invoke.
pub mod Registry

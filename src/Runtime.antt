-- ===== src/Runtime.antt =====
-- packages/platform/src/vda_platform/runtime: runs, the mailbox of peers, and bot turns.
pub mod Runs
pub mod Mailbox
pub mod Turn

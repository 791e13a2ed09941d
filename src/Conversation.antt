-- ===== src/Conversation.antt =====
-- packages/platform/src/vda_platform/conversation: members, messages and the outbox.
pub mod State
pub mod Outbox

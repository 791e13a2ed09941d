-- ===== src/Conversation/Outbox.antt =====
-- packages/platform/src/vda_platform/conversation/outbox.py: `ConversationOutbox`.
-- The decimal text of a number is the parameter `show`.
pub mod Quota
use grok_bot_data.Prelude.{
  ℕ, String, Bool, Option, none, some, List, [], ltb, Result, ok, err, Exec, pure, gets, or_raise,
  modify, any, ◌-◌, ◌∷◌, ◌++◌, ◌==◌, ◌>>=◌, ◌>>◌, if◌then◌else◌, string_eq, pair_eq, nat_eq,
  option_eq,
}
use grok_bot_data.Prelude.Dict.{Dict, lookup, insert}
use Prim.Native.String.{◌++◌ as concat}
use grok_bot_data.Conversation.State.{
  Conversation, ConversationCommand, ConversationError, Message, idempotent_message, append_message,
}

-- the strings `dispatch`
pub data Dispatch : Type 0 where
  queued rejected_quota completed : Dispatch

-- an event, with the two entries of its payload
pub record OutboxEvent : Type 0 where
  pub event_id : String
  pub event_type : String
  pub workspace_id : String
  pub conversation_id : String
  pub event_sequence : ℕ
  pub message_id : String
  pub sender_id : String

pub record MessageAck : Type 0 where
  pub message : Message
  pub bot_dispatch : Dispatch
  pub event : OutboxEvent

pub record Outbox : Type 0 where
  pub workspace_id : String
  pub conversation : Conversation
  pub events : List OutboxEvent
  pub bot_quota : ℕ
  pub dispatch_outcomes : Dict String Dispatch

-- an error of the conversation; `next` on no event; a missing outcome
pub data OutboxError : Type 0 where
  conversation_error : ConversationError → OutboxError
  stop_iteration key_error : OutboxError

abbrev pub OutboxCommand : Type 0 → Type 0
OutboxCommand A = Exec Outbox OutboxError A

-- `ConversationOutbox.__init__`
unfoldable pub new : String → Conversation → Outbox
new workspace_id conversation = record {
  workspace_id = workspace_id;
  conversation = conversation;
  events = [];
  bot_quota = 0;
  dispatch_outcomes = [];
}

-- `ConversationOutbox.set_bot_quota`, for a quota that is not negative
unfoldable pub set_bot_quota : ℕ → OutboxCommand Unit
set_bot_quota available = modify (λ s. record s { bot_quota = available })

abbrev pub with_conversation :
    {A : Type 0}
    → Outbox
    → Result ConversationError A × Conversation
    → Result OutboxError A × Outbox
with_conversation s (ok a, c) = (ok a, record s { conversation = c })
with_conversation s (err e, c) = (err (conversation_error e), record s { conversation = c })

-- a method of `self.conversation`
abbrev pub in_conversation : {A : Type 0} → ConversationCommand A → OutboxCommand A
in_conversation call s = with_conversation s (call s.conversation)

-- `next(event for event in self._events if ...)`
unfoldable pub event_of : String → List OutboxEvent → Option OutboxEvent
event_of message_id [] = none
event_of message_id (event ∷ rest) =
    if event.message_id == message_id then some event else event_of message_id rest

-- the answer to a retry
unfoldable pub known_ack : Message → Message → OutboxCommand MessageAck
known_ack existing message = do
  found ← gets (λ s. event_of existing.message_id s.events)
  event ← or_raise found stop_iteration
  outcome ← gets (λ s. lookup existing.message_id s.dispatch_outcomes)
  dispatch ← or_raise outcome key_error
  pure (record { message = message; bot_dispatch = dispatch; event = event })

unfoldable pub event_for : (ℕ → String) → Outbox → Message → String → OutboxEvent
event_for show s message sender_id = record {
  event_id = concat s.workspace_id (
      concat ":"
        (concat s.conversation.conversation_id (concat ":" (show s.conversation.event_sequence))));
  event_type = "message.created";
  workspace_id = s.workspace_id;
  conversation_id = s.conversation.conversation_id;
  event_sequence = s.conversation.event_sequence;
  message_id = message.message_id;
  sender_id = sender_id;
}

unfoldable pub is_known_event : OutboxEvent → List OutboxEvent → Bool
is_known_event event events = any (λ known. known.event_id == event.event_id) events

-- `append_human_message`, behind the append: a retry, or a new event and its dispatch
unfoldable pub dispatch_human :
    (ℕ → String) → String → Message → Option Message → OutboxCommand MessageAck
unfolding known_ack
dispatch_human show sender_id message (some existing) = known_ack existing message
dispatch_human show sender_id message none = do
  event ← gets (λ s. event_for show s message sender_id)
  modify (λ s. record s {
    events = if is_known_event event s.events then s.events else s.events ++ event ∷ [];
  })
  dispatch ← gets (λ s. if ltb 0 s.bot_quota then queued else rejected_quota)
  modify (λ s. record s { bot_quota = if ltb 0 s.bot_quota then s.bot_quota - 1 else s.bot_quota })
  modify
      (λ s. record s { dispatch_outcomes = insert message.message_id dispatch s.dispatch_outcomes })
  pure (record { message = message; bot_dispatch = dispatch; event = event })

-- `ConversationOutbox.append_human_message`
unfoldable pub append_human_message :
    (ℕ → String) → String → String → String → OutboxCommand MessageAck
unfolding dispatch_human
append_human_message show sender_id client_message_id body = do
  existing ← gets (λ s. idempotent_message s.conversation sender_id client_message_id)
  message ← in_conversation (append_message show sender_id client_message_id body)
  dispatch_human show sender_id message existing

-- `append_bot_message`, behind the append
unfoldable pub dispatch_bot :
    (ℕ → String) → String → Message → Option Message → OutboxCommand MessageAck
unfolding known_ack
dispatch_bot show sender_id message (some existing) = known_ack existing message
dispatch_bot show sender_id message none = do
  event ← gets (λ s. event_for show s message sender_id)
  modify (λ s. record s {
    events = s.events ++ event ∷ [];
    dispatch_outcomes = insert message.message_id completed s.dispatch_outcomes;
  })
  pure (record { message = message; bot_dispatch = completed; event = event })

-- `ConversationOutbox.append_bot_message`
unfoldable pub append_bot_message :
    (ℕ → String) → String → String → String → OutboxCommand MessageAck
unfolding dispatch_bot
append_bot_message show sender_id client_message_id body = do
  existing ← gets (λ s. idempotent_message s.conversation sender_id client_message_id)
  message ← in_conversation (append_message show sender_id client_message_id body)
  dispatch_bot show sender_id message existing

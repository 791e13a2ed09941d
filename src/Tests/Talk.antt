-- ===== src/Tests/Talk.antt =====
-- The theorems on conversations and their outbox at small conversations.
use grok_bot_data.Prelude.{
  ℕ, String, refl, none, List, [], ok, ◌≡◌, ◌∷◌, string_eq, pair_eq, nat_eq, option_eq,
}
use grok_bot_data.Prelude.Dict.{lookup, insert}
use grok_bot_data.Conversation.State.{
  Conversation, Message, MemberInterval, new, add_member, visible_messages, append_message,
  store_message, active_interval, first_active, intervals_of, idempotent_message,
}
use grok_bot_data.Conversation.State.Numbering.{
  ConversationCall, add_call, append_call, step, steps, steps-IsNumbered,
}
use grok_bot_data.Conversation.State.Visibility.{IsNumbered, joins_blind}
use grok_bot_data.Conversation.Outbox.{
  Outbox, OutboxEvent, queued, append_human_message, dispatch_human, event_for, is_known_event,
}
use grok_bot_data.Conversation.Outbox.Quota.{QuotaRule, append_human-quota}

abbrev show : ℕ → String
show n = "1"

abbrev talk : List ConversationCall
talk = add_call "ann" ∷ append_call "ann" "k1" "hello" ∷ []

steps-IsNumbered_example : IsNumbered (steps show talk (new "talk"))
steps-IsNumbered_example = steps-IsNumbered show talk "talk"

abbrev hello : Message
hello = record {
  message_id = "talk:1";
  conversation_id = "talk";
  sender_id = "ann";
  sequence = 1;
  client_message_id = "k1";
  body = "hello";
  policy_generation = 1;
}

abbrev interval : String → ℕ → MemberInterval
interval p n = record { principal_id = p; joined_at_seq = n; left_at_seq = none }

abbrev quiet : Conversation
quiet = record {
  conversation_id = "talk";
  members = ("ann", interval "ann" 1 ∷ []) ∷ [];
  messages = [];
  idempotency = [];
  policy_generation = 1;
  event_sequence = 0;
}

abbrev talked : Conversation
talked = record quiet {
  messages = hello ∷ [];
  idempotency = (("ann", "k1"), hello) ∷ [];
  event_sequence = 1;
}

abbrev talked_with_bob : Conversation
talked_with_bob = record talked {
  members = ("ann", interval "ann" 1 ∷ []) ∷ ("bob", interval "bob" 2 ∷ []) ∷ [];
  policy_generation = 2;
}

talked-IsNumbered : IsNumbered talked
unfolding steps step new add_member append_message store_message active_interval first_active
    intervals_of lookup insert
talked-IsNumbered = steps-IsNumbered show talk "talk"

joins_blind_example : visible_messages "bob" talked_with_bob ≡ (ok [], talked_with_bob)
unfolding add_member active_interval first_active intervals_of lookup insert
joins_blind_example =
    joins_blind talked talked_with_bob "bob" (interval "bob" 2) talked-IsNumbered refl

abbrev created : OutboxEvent
created = record {
  event_id = "team:talk:1";
  event_type = "message.created";
  workspace_id = "team";
  conversation_id = "talk";
  event_sequence = 1;
  message_id = "talk:1";
  sender_id = "ann";
}

abbrev outbox : Outbox
outbox = record {
  workspace_id = "team";
  conversation = quiet;
  events = [];
  bot_quota = 2;
  dispatch_outcomes = [];
}

abbrev outbox_after : Outbox
outbox_after = record outbox {
  conversation = talked;
  events = created ∷ [];
  bot_quota = 1;
  dispatch_outcomes = ("talk:1", queued) ∷ [];
}

append_human-quota_example : QuotaRule (idempotent_message quiet "ann" "k1") 2 1 queued
unfolding append_human_message dispatch_human append_message store_message idempotent_message
    event_for is_known_event active_interval first_active intervals_of lookup insert
append_human-quota_example =
    append_human-quota show "ann" "k1" "hello" outbox outbox_after
      (record { message = hello; bot_dispatch = queued; event = created }) refl

-- ===== src/Local/Conversations.antt =====
-- services/api/src/vda_api/application.py: the conversations of `LocalApplication`. Parameters: whether
-- an id starts with "bot", the decimal text of a number, and the turn of the bot runtime, which
-- Runtime/Turn has.
use grok_bot_data.Prelude.{
  ℕ, max, String, Bool, true, false, not, Option, none, some, List, [], map, ltb, Result, ok, err,
  Exec, pure, gets, or_raise, lift, raise_if, modify, filter, any, elem, string_eq, pair_eq,
  option_eq, nat_eq, ◌&&◌, ◌||◌, ◌∷◌, ◌==◌, ◌>>=◌, ◌>>◌, if◌then◌else◌,
}
use grok_bot_data.Prelude.Dict.{Dict, lookup, insert, contains, values}
use grok_bot_data.Conversation.State.{
  is_active_member, Conversation, ConversationCommand, ConversationError, Message, add_member,
  visible_messages, new as new_conversation,
}
use Prim.Native.String.{◌++◌ as concat}
use grok_bot_data.Runtime.Turn.{BotTurn, TurnStatus, status_ok}
use grok_bot_data.Conversation.Outbox.{
  append_bot_message, MessageAck, Outbox, OutboxCommand, OutboxError, OutboxEvent,
  append_human_message, conversation_error, in_conversation, new as new_outbox,
}

-- `LocalApiError` with one constructor for each message, and the errors of an outbox
pub data ConversationsError : Type 0 where
  conversation_exists owner_not_member unknown_template : ConversationsError
  conversation_not_found actor_not_active bot_not_active : ConversationsError
  outbox_error : OutboxError → ConversationsError

pub record LocalConversation : Type 0 where
  pub workspace_id : String
  pub owner_id : String
  pub outbox : Outbox
  pub bot_templates : Dict String String

-- the dict `_conversations` of the application
pub record LocalConversations : Type 0 where
  pub conversations : Dict String LocalConversation

abbrev pub ConversationsCommand : Type 0 → Type 0
ConversationsCommand A = Exec LocalConversations ConversationsError A

-- `dict.fromkeys(members)`, without the ids that are there already
unfoldable pub distinct : List String → List String → List String
distinct seen [] = []
distinct seen (member ∷ rest) =
    let others = distinct (member ∷ seen) rest in
    if elem member seen then others else member ∷ others

unfoldable pub add_members : List String → ConversationCommand Unit
add_members [] = pure tt
add_members (member ∷ rest) = do interval ← add_member member; add_members rest

-- `templates.setdefault(member_id, "DataAssistant")` for each bot
unfoldable pub default_templates :
    (String → Bool) → List String → Dict String String → Dict String String
default_templates is_bot [] templates = templates
default_templates is_bot (member ∷ rest) templates = default_templates is_bot rest (
    if is_bot member && not (contains member templates)
    then insert member "DataAssistant" templates
    else templates)

abbrev pub is_template : String → Bool
is_template name =
    name == "DataAssistant"
    || name == "DataSteward"
    || name == "DataAnalyst"
    || name == "ReportWriter"

abbrev pub with_members :
    Result ConversationError Unit × Conversation → Result ConversationsError Conversation
with_members (ok done, state) = ok state
with_members (err e, state) = err (outbox_error (conversation_error e))

-- `create_conversation`
unfoldable pub create_conversation :
    (String → Bool)
    → String
    → String
    → String
    → List String
    → Dict String String
    → ConversationsCommand LocalConversation
unfolding add_members distinct default_templates new_outbox new_conversation
create_conversation is_bot workspace_id conversation_id owner_id members bot_templates = do
  known ← gets (λ s. contains conversation_id s.conversations)
  raise_if known conversation_exists
  raise_if (not (elem owner_id members)) owner_not_member
  state ← lift (with_members (add_members (distinct [] members) (new_conversation conversation_id)))
  let templates = default_templates is_bot members bot_templates
  raise_if (any (λ name. not (is_template name)) (values templates)) unknown_template
  let created : LocalConversation = record {
    workspace_id = workspace_id;
    owner_id = owner_id;
    outbox = new_outbox workspace_id state;
    bot_templates = templates;
  }
  modify (λ s. record s { conversations = insert conversation_id created s.conversations })
  pure created

-- `get`
unfoldable pub get : String → ConversationsCommand LocalConversation
get conversation_id =
    gets (λ s. lookup conversation_id s.conversations) >>= λ o. or_raise o conversation_not_found

abbrev pub with_outbox :
    {A : Type 0}
    → String
    → LocalConversation
    → LocalConversations
    → Result OutboxError A × Outbox
    → Result ConversationsError A × LocalConversations
with_outbox id known s (ok a, outbox) = (
  ok a,
  record s { conversations = insert id (record known { outbox = outbox }) s.conversations },
)
with_outbox id known s (err e, outbox) = (
  err (outbox_error e),
  record s { conversations = insert id (record known { outbox = outbox }) s.conversations },
)

-- a method of the outbox of a conversation, which it changes in place
abbrev pub on_outbox :
    {A : Type 0} → String → LocalConversation → OutboxCommand A → ConversationsCommand A
on_outbox id known command s = with_outbox id known s (command known.outbox)

-- `send`
unfoldable pub send :
    (ℕ → String) → String → String → String → String → ConversationsCommand MessageAck
unfolding get append_human_message
send show conversation_id actor_id client_message_id body = do
  known ← get conversation_id
  on_outbox conversation_id known (append_human_message show actor_id client_message_id body)

-- `read`
unfoldable pub read : String → String → ConversationsCommand (List Message)
unfolding get visible_messages
read conversation_id actor_id = do
  known ← get conversation_id
  on_outbox conversation_id known (in_conversation (visible_messages actor_id))

-- the greatest sequence number, or 0
unfoldable pub high_watermark : List OutboxEvent → ℕ
high_watermark [] = 0
high_watermark (event ∷ rest) = max event.event_sequence (high_watermark rest)

-- the events after `after_seq` of messages that are visible
abbrev pub is_shown : ℕ → List Message → OutboxEvent → Bool
is_shown after_seq visible event =
    ltb after_seq event.event_sequence
    && any (λ (message : Message). message.message_id == event.message_id) visible

-- `read_events`
unfoldable pub read_events : String → String → ℕ → ConversationsCommand (List OutboxEvent × ℕ)
unfolding read high_watermark
read_events conversation_id actor_id after_seq = do
  known ← get conversation_id
  visible ← read conversation_id actor_id
  pure (filter (is_shown after_seq visible) known.outbox.events, high_watermark known.outbox.events)

abbrev pub is_ok : TurnStatus → Bool
is_ok status_ok = true
is_ok _ = false

-- What `run_bot_turn` hands to `BotRuntime.execute`, for the fake model and at fence 1.
pub record TurnInput : Type 0 where
  pub actor_id : String
  pub bot_id : String
  pub bot_template : String
  pub workspace_id : String
  pub conversation_id : String
  pub turn_id : String
  pub history : List String

abbrev pub in_bot : String → LocalConversation → Option String
in_bot bot_id known =
    if is_active_member known.outbox.conversation bot_id
    then lookup bot_id known.bot_templates
    else none

-- `run_bot_turn`; `execute` is the turn of the runtime
unfoldable pub run_bot_turn :
    {R : Type 0}
    → (TurnInput → BotTurn R)
    → (ℕ → String)
    → String
    → String
    → String
    → String
    → ConversationsCommand (BotTurn R × Option MessageAck)
unfolding get append_bot_message
run_bot_turn execute show conversation_id actor_id bot_id turn_id = do
  known ← get conversation_id
  raise_if (not (is_active_member known.outbox.conversation actor_id)) actor_not_active
  template ← or_raise (in_bot bot_id known) bot_not_active
  let result = execute (record {
    actor_id = actor_id;
    bot_id = bot_id;
    bot_template = template;
    workspace_id = known.workspace_id;
    conversation_id = conversation_id;
    turn_id = turn_id;
    history = map (λ (message : Message). message.body) known.outbox.conversation.messages;
  })
  if not (is_ok result.status) || result.text == ""
      then pure (result, none)
      else (on_outbox conversation_id known
            (append_bot_message show bot_id (concat turn_id ":response") result.text)
          >>= λ ack. pure (result, some ack))

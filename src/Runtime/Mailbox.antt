-- ===== src/Runtime/Mailbox.antt =====
-- packages/platform/src/vda_platform/runtime/mailbox.py: messages and handoffs between bots.
pub mod Messages
pub mod Handoffs
use grok_bot_data.Prelude.{
  ℕ, String, Bool, false, not, Option, none, some, List, [], ltb, Exec, pure, gets, or_raise,
  raise_if, modify, elem, ◌+◌, ◌||◌, ◌==◌, ◌!=◌, ◌>>=◌, ◌>>◌, string_eq, pair_eq, nat_eq, option_eq,
}
use grok_bot_data.Prelude.Dict.{Dict, lookup, insert, contains}
use Prim.Native.String.{◌++◌ as concat}

-- `MailboxError`, one constructor for each message
pub data MailboxError : Type 0 where
  self_message not_member body_required correlation_reused : MailboxError
  owner_not_member stage_exists handoff_cas_failed invalid_target bounce hop_limit : MailboxError

pub data MailboxKind : Type 0 where
  request question status fyi result : MailboxKind

pub record MailboxMessage : Type 0 where
  pub message_id : String
  pub correlation_id : String
  pub conversation_id : String
  pub source_bot_id : String
  pub target_bot_id : String
  pub kind : MailboxKind
  pub body : String

pub record Handoff : Type 0 where
  pub stage_id : String
  pub conversation_id : String
  pub owner_bot_id : String
  pub hop_count : ℕ
  pub terminal_source : Option String

pub record Mailbox : Type 0 where
  pub conversation_id : String
  pub members : List String
  pub max_hops : ℕ
  pub messages : Dict (String × String) MailboxMessage
  pub handoffs : Dict String Handoff

abbrev pub MailboxCommand : Type 0 → Type 0
MailboxCommand A = Exec Mailbox MailboxError A

-- `Mailbox.__init__`
unfoldable pub new : String → List String → ℕ → Mailbox
new conversation_id members max_hops = record {
  conversation_id = conversation_id;
  members = members;
  max_hops = max_hops;
  messages = [];
  handoffs = [];
}

-- the second half of `send`: the message that the key has, or a new one
unfoldable pub deliver :
    String
    → String
    → String
    → MailboxKind
    → String
    → Option MailboxMessage
    → MailboxCommand MailboxMessage
deliver correlation_id source_bot_id target_bot_id kind body (some existing) = do
  raise_if (existing.body != body || existing.source_bot_id != source_bot_id) correlation_reused
  pure existing
deliver correlation_id source_bot_id target_bot_id kind body none = do
  conversation_id ← gets (λ s. s.conversation_id)
  let message : MailboxMessage = record {
    message_id = concat correlation_id (concat ":" target_bot_id);
    correlation_id = correlation_id;
    conversation_id = conversation_id;
    source_bot_id = source_bot_id;
    target_bot_id = target_bot_id;
    kind = kind;
    body = body;
  }
  modify (λ s. record s { messages = insert (correlation_id, target_bot_id) message s.messages })
  pure message

-- `Mailbox.send`
unfoldable pub send :
    String → String → String → MailboxKind → String → MailboxCommand MailboxMessage
unfolding deliver
send correlation_id source_bot_id target_bot_id kind body = do
  raise_if (source_bot_id == target_bot_id) self_message
  members ← gets (λ s. s.members)
  raise_if (not (elem source_bot_id members) || not (elem target_bot_id members)) not_member
  raise_if (body == "") body_required
  existing ← gets (λ s. lookup (correlation_id, target_bot_id) s.messages)
  deliver correlation_id source_bot_id target_bot_id kind body existing

-- `Mailbox.create_handoff`
unfoldable pub create_handoff : String → String → MailboxCommand Handoff
create_handoff stage_id owner_bot_id = do
  members ← gets (λ s. s.members)
  raise_if (not (elem owner_bot_id members)) owner_not_member
  taken ← gets (λ s. contains stage_id s.handoffs)
  raise_if taken stage_exists
  conversation_id ← gets (λ s. s.conversation_id)
  let handoff : Handoff = record {
    stage_id = stage_id;
    conversation_id = conversation_id;
    owner_bot_id = owner_bot_id;
    hop_count = 0;
    terminal_source = none;
  }
  modify (λ s. record s { handoffs = insert stage_id handoff s.handoffs })
  pure handoff

-- `current.terminal_source == target_bot_id`
abbrev pub came_from : Option String → String → Bool
came_from none target = false
came_from (some source) target = source == target

-- `Mailbox.handoff`
unfoldable pub hand_over : String → String → String → ℕ → MailboxCommand Handoff
hand_over stage_id source_bot_id target_bot_id expected_hop = do
  found ← gets (λ s. lookup stage_id s.handoffs)
  current ← or_raise found handoff_cas_failed
  raise_if (current.owner_bot_id != source_bot_id || current.hop_count != expected_hop)
      handoff_cas_failed
  members ← gets (λ s. s.members)
  raise_if (not (elem target_bot_id members) || target_bot_id == source_bot_id) invalid_target
  raise_if (came_from current.terminal_source target_bot_id) bounce
  max_hops ← gets (λ s. s.max_hops)
  raise_if (ltb max_hops (current.hop_count + 1)) hop_limit
  let updated : Handoff = record current {
    owner_bot_id = target_bot_id;
    hop_count = current.hop_count + 1;
    terminal_source = some source_bot_id;
  }
  modify (λ s. record s { handoffs = insert stage_id updated s.handoffs })
  pure updated

-- ===== src/Conversation/State.antt =====
-- packages/platform/src/vda_platform/conversation/state.py: `ConversationState`.
-- The decimal text of a number, in `f"{...}:{sequence}"`, is the parameter `show`.
pub mod Visibility
pub mod Numbering
use grok_bot_data.Prelude.{
  ℕ, max, String, Bool, not, Option, none, some, List, [], leb, is_some, Exec, pure, gets, or_raise,
  raise_if, modify, length, filter, get_or, ◌+◌, ◌||◌, ◌∷◌, ◌++◌, ◌==◌, ◌!=◌, ◌>>=◌, ◌>>◌,
  if◌then◌else◌, string_eq, pair_eq, nat_eq, option_eq,
}
use grok_bot_data.Prelude.Dict.{Dict, lookup, insert}
use Prim.Native.String.{◌++◌ as concat}
use mathlib.Core.List.{reverse}

-- `MembershipError` with one constructor for each message, `ValueError`, `IdempotencyConflict`
pub data ConversationError : Type 0 where
  already_active not_active not_active_member not_a_member sender_not_active : ConversationError
  fields_required idempotency_conflict : ConversationError

pub record MemberInterval : Type 0 where
  pub principal_id : String
  pub joined_at_seq : ℕ
  pub left_at_seq : Option ℕ

-- `MemberInterval.active`
abbrev pub active : MemberInterval → Bool
active interval = not (is_some interval.left_at_seq)

pub record Message : Type 0 where
  pub message_id : String
  pub conversation_id : String
  pub sender_id : String
  pub sequence : ℕ
  pub client_message_id : String
  pub body : String
  pub policy_generation : ℕ

pub record Conversation : Type 0 where
  pub conversation_id : String
  pub members : Dict String (List MemberInterval)
  pub messages : List Message
  pub idempotency : Dict (String × String) Message
  pub policy_generation : ℕ
  pub event_sequence : ℕ

abbrev pub ConversationCommand : Type 0 → Type 0
ConversationCommand A = Exec Conversation ConversationError A

-- `ConversationState.__init__`
unfoldable pub new : String → Conversation
new conversation_id = record {
  conversation_id = conversation_id;
  members = [];
  messages = [];
  idempotency = [];
  policy_generation = 0;
  event_sequence = 0;
}

-- `next((interval for interval in intervals if interval.active), None)`
unfoldable pub first_active : List MemberInterval → Option MemberInterval
first_active [] = none
first_active (interval ∷ rest) = if active interval then some interval else first_active rest

-- `self._members.get(principal_id, [])`
unfoldable pub intervals_of : Conversation → String → List MemberInterval
intervals_of s principal_id = get_or [] (lookup principal_id s.members)

-- `ConversationState._active_interval`
unfoldable pub active_interval : Conversation → String → Option MemberInterval
active_interval s principal_id = first_active (reverse (intervals_of s principal_id))

-- `ConversationState.is_active_member`
unfoldable pub is_active_member : Conversation → String → Bool
is_active_member s principal_id = is_some (active_interval s principal_id)

-- `ConversationState.idempotent_message`
unfoldable pub idempotent_message : Conversation → String → String → Option Message
idempotent_message s sender_id client_message_id =
    lookup (sender_id, client_message_id) s.idempotency

-- `ConversationState.add_member`
unfoldable pub add_member : String → ConversationCommand MemberInterval
add_member principal_id = do
  present ← gets (λ s. is_some (active_interval s principal_id))
  raise_if present already_active
  sequence ← gets (λ s. length s.messages + 1)
  let interval : MemberInterval = record {
    principal_id = principal_id;
    joined_at_seq = sequence;
    left_at_seq = none;
  }
  modify (λ s. record s {
    policy_generation = s.policy_generation + 1;
    members = insert principal_id (intervals_of s principal_id ++ interval ∷ []) s.members;
  })
  pure interval

-- `intervals[-1] = value`; on the empty list, an `IndexError`, there is no last entry to set
unfoldable pub set_last : List MemberInterval → MemberInterval → List MemberInterval
set_last [] value = []
set_last (x ∷ []) value = value ∷ []
set_last (x ∷ y ∷ rest) value = x ∷ set_last (y ∷ rest) value

-- `ConversationState.remove_member`
unfoldable pub remove_member : String → ConversationCommand Unit
remove_member principal_id = do
  found ← gets (λ s. active_interval s principal_id)
  interval ← or_raise found not_active
  modify (λ s. record s {
    members =
        insert principal_id
          (set_last (intervals_of s principal_id) (record {
            principal_id = interval.principal_id;
            joined_at_seq = interval.joined_at_seq;
            left_at_seq = some (length s.messages + 1);
          }))
          s.members;
    policy_generation = s.policy_generation + 1;
  })

-- `max((interval.joined_at_seq for interval in intervals), default=None)`
unfoldable pub last_joined : List MemberInterval → Option ℕ
last_joined [] = none
last_joined (interval ∷ rest) = some (later interval.joined_at_seq (last_joined rest))
  where
    later : ℕ → Option ℕ → ℕ
    later n none = n
    later n (some m) = max n m

-- `ConversationState.visible_messages`
unfoldable pub visible_messages : String → ConversationCommand (List Message)
visible_messages principal_id = do
  present ← gets (λ s. is_some (active_interval s principal_id))
  raise_if (not present) not_active_member
  joined ← gets (λ s. last_joined (intervals_of s principal_id))
  visible_from ← or_raise joined not_a_member
  gets (λ s. filter (λ message. leb visible_from message.sequence) s.messages)

-- the message that the key has, or a new one, in `append_message`
unfoldable pub store_message :
    (ℕ → String) → String → String → String → Option Message → ConversationCommand Message
store_message show sender_id client_message_id body (some previous) = do
  raise_if (previous.body != body) idempotency_conflict
  pure previous
store_message show sender_id client_message_id body none = do
  message ← gets (λ s. record {
    message_id = concat s.conversation_id (concat ":" (show (length s.messages + 1)));
    conversation_id = s.conversation_id;
    sender_id = sender_id;
    sequence = length s.messages + 1;
    client_message_id = client_message_id;
    body = body;
    policy_generation = s.policy_generation;
  })
  modify (λ s. record s {
    messages = s.messages ++ message ∷ [];
    idempotency = insert (sender_id, client_message_id) message s.idempotency;
    event_sequence = s.event_sequence + 1;
  })
  pure message

-- `ConversationState.append_message`
unfoldable pub append_message :
    (ℕ → String) → String → String → String → ConversationCommand Message
unfolding store_message
append_message show sender_id client_message_id body = do
  present ← gets (λ s. is_some (active_interval s sender_id))
  raise_if (not present) sender_not_active
  raise_if (client_message_id == "" || body == "") fields_required
  previous ← gets (λ s. lookup (sender_id, client_message_id) s.idempotency)
  store_message show sender_id client_message_id body previous

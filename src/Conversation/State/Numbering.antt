-- ===== src/Conversation/State/Numbering.antt =====
-- The numbering of messages and joins (conversation/state.py) under any sequence of calls.
use grok_bot_data.Prelude.{
  ℕ, String, refl, inl, inr, not, Option, none, some, List, [], arith, Bool-cases, Option-cases,
  is_some, length, length-append, get_or, All-mono, All-append, string_eq, pair_eq, option_eq,
  nat_eq, ◌+◌, ◌≤◌, ◌≡◌, ◌||◌, ◌∷◌, ◌==◌, ◌!=◌,
}
use grok_bot_data.Prelude.Dict.{lookup}
use grok_bot_data.Conversation.State.{
  Conversation, MemberInterval, Message, new, intervals_of, active_interval, add_member,
  remove_member, append_message, store_message,
}
use mathlib.Core.List.{reverse}
use grok_bot_data.Conversation.State.Visibility.{
  Numbered-append, IsNumbered, All-set_last, first_active-All, All-reverse, write-joins,
}

pub data ConversationCall : Type 0 where
  add_call remove_call : String → ConversationCall
  append_call : String → String → String → ConversationCall

unfoldable pub step : (ℕ → String) → ConversationCall → Conversation → Conversation
step show (add_call p) s = (add_member p s).1
step show (remove_call p) s = (remove_member p s).1
step show (append_call sender key body) s = (append_message show sender key body s).1

unfoldable pub steps : (ℕ → String) → List ConversationCall → Conversation → Conversation
steps show [] s = s
steps show (call ∷ rest) s = steps show rest (step show call s)

add-IsNumbered : (p : String) (s : Conversation) → IsNumbered s → IsNumbered (add_member p s).1
unfolding add_member intervals_of
add-IsNumbered p s v = elim (Bool-cases (is_some (active_interval s p))) [
  | inl present ↦ rw present v
  | inr absent ↦ rw absent (record {
    sequences = v.sequences;
    events = v.events;
    joins = λ q.
        write-joins s (length s.messages + 1) p q _
          (All-append (λ (i : MemberInterval). i.joined_at_seq ≤ length s.messages + 1)
            (intervals_of s p) _ (v.joins p) (omega arith, tt))
          (v.joins q);
  })
]

remove-IsNumbered :
    (p : String) (s : Conversation) → IsNumbered s → IsNumbered (remove_member p s).1
unfolding remove_member intervals_of
remove-IsNumbered p s v = elim (Option-cases (active_interval s p)) [
  | inl absent ↦ rw absent v
  | inr (i, present) ↦ rw present (record {
    sequences = v.sequences;
    events = v.events;
    joins = λ q.
        write-joins s (length s.messages + 1) p q _
          (All-set_last (λ (j : MemberInterval). j.joined_at_seq ≤ length s.messages + 1)
            (intervals_of s p) _ (joined_early i present) (v.joins p))
          (v.joins q);
  })
]
  where
    joined_early :
        (i : MemberInterval)
        → active_interval s p ≡ some i
        → i.joined_at_seq ≤ length s.messages + 1
    joined_early i e =
        first_active-All (λ (j : MemberInterval). j.joined_at_seq ≤ length s.messages + 1)
          (reverse (intervals_of s p)) i (unfold active_interval in e)
          (All-reverse (λ (j : MemberInterval). j.joined_at_seq ≤ length s.messages + 1)
            (intervals_of s p) (v.joins p))

store-IsNumbered :
    (show : ℕ → String) (sender key body : String) (o : Option Message) (s : Conversation)
    → IsNumbered s
    → IsNumbered (store_message show sender key body o s).1
unfolding store_message intervals_of
store-IsNumbered show sender key body (some m) s v = elim (Bool-cases (m.body != body)) [
  | inl other ↦ rw other v
  | inr same ↦ rw same v
]
store-IsNumbered show sender key body none s v = record {
  sequences = Numbered-append 0 s.messages _ v.sequences (omega arith);
  events = omega (arith, v.events, length-append {0} s.messages);
  joins = λ p.
      All-mono _ _ (get_or [] (lookup p s.members))
        (λ i (h : i.joined_at_seq ≤ length s.messages + 1).
          omega (arith, h, length-append {0} s.messages))
        (v.joins p);
}

append-IsNumbered :
    (show : ℕ → String) (sender key body : String) (s : Conversation)
    → IsNumbered s
    → IsNumbered (append_message show sender key body s).1
unfolding append_message
append-IsNumbered show sender key body s v =
    elim (Bool-cases (not (is_some (active_interval s sender)))) [
      | inl absent ↦ rw absent v
      | inr present ↦ elim (Bool-cases (key == "" || body == "")) [
        | inl bad ↦ rw (present, bad) v
        | inr good ↦ rw (present, good) (store-IsNumbered show sender key body _ s v)
      ]
    ]

step-IsNumbered :
    (show : ℕ → String) (call : ConversationCall) (s : Conversation)
    → IsNumbered s
    → IsNumbered (step show call s)
unfolding step
step-IsNumbered show (add_call p) s v = add-IsNumbered p s v
step-IsNumbered show (remove_call p) s v = remove-IsNumbered p s v
step-IsNumbered show (append_call sender key body) s v = append-IsNumbered show sender key body s v

run-IsNumbered :
    (show : ℕ → String) (calls : List ConversationCall) (s : Conversation)
    → IsNumbered s
    → IsNumbered (steps show calls s)
unfolding steps
run-IsNumbered show [] s v = v
run-IsNumbered show (call ∷ rest) s v =
    run-IsNumbered show rest (step show call s) (step-IsNumbered show call s v)

-- In a conversation that began empty, after any sequence of calls, the messages are numbered from
-- 1 on in their order, there has been one event for each, and nobody has joined later than now.
pub steps-IsNumbered :
    (show : ℕ → String) (calls : List ConversationCall) (conversation_id : String)
    → IsNumbered (steps show calls (new conversation_id))
unfolding new intervals_of lookup
steps-IsNumbered show calls conversation_id =
    run-IsNumbered show calls (new conversation_id)
      (record { sequences = tt; events = refl; joins = λ p. tt })

-- ===== src/Conversation/Outbox/Quota.antt =====
-- The quota of bot dispatches (conversation/outbox.py).
use grok_bot_data.Prelude.{
  ℕ, String, ap, Option, none, some, arith, ltb, Result, ok, err, continue, ◌+◌, ◌-◌, ◌≤◌, ◌≡◌, ◌⊎◌,
  if◌then◌else◌,
}
use grok_bot_data.Conversation.State.{
  ConversationError, Conversation, Message, idempotent_message, append_message,
}
use grok_bot_data.Conversation.Outbox.{
  Outbox, OutboxError, MessageAck, Dispatch, queued, rejected_quota, completed, dispatch_human,
  known_ack, append_human_message, with_conversation,
}

-- What an acknowledged human message did to the quota, by whether its key was known.
abbrev pub QuotaRule : Option Message → ℕ → ℕ → Dispatch → Type 0
QuotaRule (some existing) before after dispatch = after ≡ before
QuotaRule none before after dispatch =
    ((1 ≤ before) × (dispatch ≡ queued) × (after + 1 ≡ before))
    ⊎ ((before ≡ 0) × (dispatch ≡ rejected_quota) × (after ≡ 0))

quota_rule :
    (before after : ℕ) (d : Dispatch)
    → (if ltb 0 before then before - 1 else before) ≡ after
    → (if ltb 0 before then queued else rejected_quota) ≡ d
    → QuotaRule none before after d
quota_rule before after d p q = ground arith

dispatch_in : Result OutboxError MessageAck → Dispatch
dispatch_in (ok ack) = ack.bot_dispatch
dispatch_in (err e) = completed

dispatch_quota :
    (show : ℕ → String) (sender : String) (m : Message) (o : Option Message) (s s' : Outbox)
    (ack : MessageAck)
    → dispatch_human show sender m o s ≡ (ok ack, s')
    → QuotaRule o s.bot_quota s'.bot_quota ack.bot_dispatch
unfolding dispatch_human known_ack dispatch_in
dispatch_quota show sender m (some x) s s' ack ran = ground arith
dispatch_quota show sender m none s s' ack ran =
    quota_rule s.bot_quota s'.bot_quota ack.bot_dispatch (ap (λ r. r.1.bot_quota) ran)
      (ap (λ r. dispatch_in r.0) ran)

-- A human message that is acknowledged uses one dispatch of the quota if its key was new and any
-- was left, and is then queued; with none left it is rejected for the quota; a retry of a known
-- key leaves the quota as it was.
pub append_human-quota :
    (show : ℕ → String) (sender key body : String) (s s' : Outbox) (ack : MessageAck)
    → append_human_message show sender key body s ≡ (ok ack, s')
    → QuotaRule
        (idempotent_message s.conversation sender key)
        s.bot_quota
        s'.bot_quota
        ack.bot_dispatch
unfolding append_human_message
append_human-quota show sender key body s s' ack ran =
    from_append (append_message show sender key body s.conversation) ran
  where
    from_append :
        (r : Result ConversationError Message × Conversation)
        → continue
            (with_conversation s r).0
            (λ m. dispatch_human show sender m (idempotent_message s.conversation sender key))
            (with_conversation s r).1
          ≡ (ok ack, s')
        → QuotaRule
            (idempotent_message s.conversation sender key)
            s.bot_quota
            s'.bot_quota
            ack.bot_dispatch
    from_append (ok m, c) h =
        dispatch_quota show sender m (idempotent_message s.conversation sender key)
          (record s { conversation = c }) s' ack h
    from_append (err e, c) h = cc (ap (λ r. r.0) h)

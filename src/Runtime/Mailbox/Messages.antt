-- ===== src/Runtime/Mailbox/Messages.antt =====
-- Messages of the mailbox (runtime/mailbox.py): retries and conflicts.
use grok_bot_data.Prelude.{
  String, refl, sym, ap, subst, inl, inr, true, false, not, Option, none, some, arith, Bool-cases,
  beq_ne, ok, err, elem, string_eq, raise_if-returned, pair_eq, option_eq, nat_eq, ◌≡◌, ◌≢◌, ◌||◌,
  ◌∙◌, ◌==◌, ◌!=◌, if◌then◌else◌,
}
use grok_bot_data.Prelude.Dict.{lookup, lookup-insert_self}
use Prim.Native.String.{◌++◌ as concat}
use grok_bot_data.Runtime.Mailbox.{
  Mailbox, MailboxKind, MailboxMessage, send, correlation_reused, deliver,
}

-- What a `deliver` that returned shows: the entry that it left, and that members stay.
module _ (correlation source target : String) (kind : MailboxKind) (body : String)
    (s : Mailbox) where
  delivered :
      (o : Option MailboxMessage) (s' : Mailbox) (m : MailboxMessage)
      → lookup (correlation, target) s.messages ≡ o
      → deliver correlation source target kind body o s ≡ (ok m, s')
      → (s'.members ≡ s.members)
        × (lookup (correlation, target) s'.messages ≡ some m)
        × (m.body ≡ body)
        × (m.source_bot_id ≡ source)
  unfolding deliver
  delivered (some k) s' m known ran =
      let (same, done) =
        raise_if-returned (k.body != body || k.source_bot_id != source) _ _ s s' m ran in
      let is_m : k ≡ m = cc (ap (λ r. r.0) done) in
      let is_s : s ≡ s' = ap (λ r. r.1) done in
      (
        ap (λ t. t.members) (sym is_s),
        subst (λ t. lookup (correlation, target) t.messages ≡ some m) is_s (known ∙ ap some is_m),
        subst (λ j. j.body ≡ body) is_m (ground (arith, string_eq.test_iff k.body body)),
        subst (λ j. j.source_bot_id ≡ source) is_m
            (ground (arith, string_eq.test_iff k.source_bot_id source)),
      )
  delivered none s' m known ran =
      let new : MailboxMessage = record {
        message_id = concat correlation (concat ":" target);
        correlation_id = correlation;
        conversation_id = s.conversation_id;
        source_bot_id = source;
        target_bot_id = target;
        kind = kind;
        body = body;
      } in
      let is_m : new ≡ m = cc (ap (λ r. r.0) ran) in
      let is_s = ap (λ r. r.1) ran in
      (
        ap (λ t. t.members) (sym is_s),
        subst (λ t. lookup (correlation, target) t.messages ≡ some m) is_s
            (lookup-insert_self s.messages (correlation, target) new ∙ ap some is_m),
        ap (λ j. j.body) (sym is_m),
        ap (λ j. j.source_bot_id) (sym is_m),
      )

sent :
    (correlation source target : String) (kind : MailboxKind) (body : String) (s s' : Mailbox)
    (m : MailboxMessage)
    → send correlation source target kind body s ≡ (ok m, s')
    → ((source == target) ≡ false)
      × ((not (elem source s'.members) || not (elem target s'.members)) ≡ false)
      × ((body == "") ≡ false)
      × (lookup (correlation, target) s'.messages ≡ some m)
      × (m.body ≡ body)
      × (m.source_bot_id ≡ source)
unfolding send
sent correlation source target kind body s s' m ran =
    let (other, ran1) = raise_if-returned (source == target) _ _ s s' m ran in
    let (members, ran2) =
      raise_if-returned (not (elem source s.members) || not (elem target s.members)) _ _ s s' m
        ran1 in
    let (given, ran3) = raise_if-returned (body == "") _ _ s s' m ran2 in
    let (same, known, same_body, same_source) =
      delivered correlation source target kind body s _ s' m refl ran3 in
    (
      other,
      subst (λ l. (not (elem source l) || not (elem target l)) ≡ false) (sym same) members,
      given,
      known,
      same_body,
      same_source,
    )

-- After a message was sent, another `send` of the same source, target and correlation, with any
-- kind and a body that is not empty, changes nothing: with the same body it returns that message,
-- with another body it raises.
pub send_retry :
    (correlation source target : String) (kind kind' : MailboxKind) (body body' : String)
    (s s' : Mailbox) (m : MailboxMessage)
    → send correlation source target kind body s ≡ (ok m, s')
    → body' ≢ ""
    → send correlation source target kind' body' s'
      ≡ (if body == body' then (ok m, s') else (err correlation_reused, s'))
unfolding send
send_retry correlation source target kind kind' body body' s s' m ran given' =
    let (other, members, given, known, same_body, same_source) =
      sent correlation source target kind body s s' m ran in
    elim (Bool-cases (body == body')) [
      | inl same ↦
          rw
            (
              other,
              members,
              beq_ne body' "" given',
              known,
              agrees m same_body same_source same,
              same,
            )
            refl
      | inr differs ↦
          rw (other, members, beq_ne body' "" given', known, disagrees m same_body differs, differs)
            refl
    ]
  where
    agrees :
        (k : MailboxMessage)
        → k.body ≡ body
        → k.source_bot_id ≡ source
        → (body == body') ≡ true
        → (k.body != body' || k.source_bot_id != source) ≡ false
    agrees k p q h = ground (
      arith,
      string_eq.test_iff k.body body',
      string_eq.test_iff k.source_bot_id source,
      string_eq.test_iff body body',
    )

    disagrees :
        (k : MailboxMessage)
        → k.body ≡ body
        → (body == body') ≡ false
        → (k.body != body' || k.source_bot_id != source) ≡ true
    disagrees k p h = ground (arith, string_eq.test_iff k.body body', string_eq.test_iff body body')

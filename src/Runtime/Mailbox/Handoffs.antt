-- ===== src/Runtime/Mailbox/Handoffs.antt =====
-- Handoffs of the mailbox (runtime/mailbox.py): who owns a stage, and how often it moved.
use grok_bot_data.Prelude.{
  ℕ, String, refl, subst, inl, inr, Bool, true, false, not, Option, some, List, [], arith, ltb,
  Bool-cases, Option-cases, beq_refl, ok, err, elem, some_injective, passed_not, string_eq, pair_eq,
  option_eq, nat_eq, ◌+◌, ◌≤◌, ◌≡◌, ◌||◌, ◌∷◌, ◌==◌, ◌!=◌,
}
use grok_bot_data.Prelude.Dict.{lookup, insert, lookup-insert, lookup-insert_self}
use grok_bot_data.Runtime.Mailbox.{
  Mailbox, MailboxError, MailboxKind, Handoff, new, send, create_handoff, hand_over, came_from,
  handoff_cas_failed, bounce, invalid_target,
}

pub data MailboxCall : Type 0 where
  send_call : String → String → String → MailboxKind → String → MailboxCall
  create_call : String → String → MailboxCall
  handoff_call : String → String → String → ℕ → MailboxCall

unfoldable pub step : MailboxCall → Mailbox → Mailbox
step (send_call correlation source target kind body) s =
    (send correlation source target kind body s).1
step (create_call stage owner) s = (create_handoff stage owner s).1
step (handoff_call stage source target hop) s = (hand_over stage source target hop s).1

unfoldable pub steps : List MailboxCall → Mailbox → Mailbox
steps [] s = s
steps (call ∷ rest) s = steps rest (step call s)

-- Every stage is owned by a member, and has moved at most `max_hops` times.
pub record HandoffsValid (s : Mailbox) : Type 0 where
  pub owned :
      (stage : String) (h : Handoff)
      → lookup stage s.handoffs ≡ some h
      → (elem h.owner_bot_id s.members ≡ true) × (h.hop_count ≤ s.max_hops)

send-handoffs :
    (correlation source target : String) (kind : MailboxKind) (body : String) (s : Mailbox)
    → ((send correlation source target kind body s).1.handoffs ≡ s.handoffs)
      × ((send correlation source target kind body s).1.members ≡ s.members)
      × ((send correlation source target kind body s).1.max_hops ≡ s.max_hops)
unfolding send
send-handoffs correlation source target kind body s =
    elim (Option-cases (lookup (correlation, target) s.messages)) [
      | inl new_key ↦ ground arith
      | inr (m, known) ↦ ground arith
    ]

write-HandoffsValid :
    (s : Mailbox) (stage : String) (h : Handoff)
    → HandoffsValid s
    → elem h.owner_bot_id s.members ≡ true
    → h.hop_count ≤ s.max_hops
    → HandoffsValid (record s { handoffs = insert stage h s.handoffs })
write-HandoffsValid s stage h v member hops = record {
  owned = λ id k e. elim (Bool-cases (stage == id)) [
    | inl here ↦
        subst (λ j. (elem j.owner_bot_id s.members ≡ true) × (j.hop_count ≤ s.max_hops))
          (some_injective (rw (lookup-insert, here) at e)) (member, hops)
    | inr there ↦ v.owned id k (rw (lookup-insert, there) at e)
  ];
}

create-HandoffsValid :
    (stage owner : String) (s : Mailbox)
    → HandoffsValid s
    → HandoffsValid (create_handoff stage owner s).1
unfolding create_handoff
create-HandoffsValid stage owner s v = elim (Bool-cases (not (elem owner s.members))) [
  | inl stranger ↦ rw stranger v
  | inr member ↦ elim (Option-cases (lookup stage s.handoffs)) [
    | inl free ↦
        rw (member, free) (write-HandoffsValid s stage _ v (passed_not _ member) (omega arith))
    | inr (h, taken) ↦ rw (member, taken) v
  ]
]

hand_over-HandoffsValid :
    (stage source target : String) (hop : ℕ) (s : Mailbox)
    → HandoffsValid s
    → HandoffsValid (hand_over stage source target hop s).1
unfolding hand_over
hand_over-HandoffsValid stage source target hop s v =
    elim (Option-cases (lookup stage s.handoffs)) [
      | inl miss ↦ rw miss v
      | inr (h, hit) ↦ elim (Bool-cases (h.owner_bot_id != source || h.hop_count != hop)) [
        | inl stale ↦ rw (hit, stale) v
        | inr current ↦ elim (Bool-cases (not (elem target s.members) || target == source)) [
          | inl bad ↦ rw (hit, current, bad) v
          | inr good ↦ elim (Bool-cases (came_from h.terminal_source target)) [
            | inl back ↦ rw (hit, current, good, back) v
            | inr on ↦ elim (Bool-cases (ltb s.max_hops (h.hop_count + 1))) [
              | inl far ↦ rw (hit, current, good, on, far) v
              | inr near ↦
                  rw (hit, current, good, on, near)
                    (write-HandoffsValid s stage _ v (ground arith) (ground arith))
            ]
          ]
        ]
      ]
    ]

step-HandoffsValid :
    (call : MailboxCall) (s : Mailbox) → HandoffsValid s → HandoffsValid (step call s)
unfolding step
step-HandoffsValid (send_call correlation source target kind body) s v =
    let (h, m, x) = send-handoffs correlation source target kind body s in
    record { owned = λ id k e. rw (m, x) (v.owned id k (rw h at e)) }
step-HandoffsValid (create_call stage owner) s v = create-HandoffsValid stage owner s v
step-HandoffsValid (handoff_call stage source target hop) s v =
    hand_over-HandoffsValid stage source target hop s v

run-HandoffsValid :
    (calls : List MailboxCall) (s : Mailbox) → HandoffsValid s → HandoffsValid (steps calls s)
unfolding steps
run-HandoffsValid [] s v = v
run-HandoffsValid (call ∷ rest) s v =
    run-HandoffsValid rest (step call s) (step-HandoffsValid call s v)

pub steps-HandoffsValid :
    (calls : List MailboxCall) (conversation_id : String) (members : List String) (max_hops : ℕ)
    → HandoffsValid (steps calls (new conversation_id members max_hops))
unfolding new lookup
steps-HandoffsValid calls conversation_id members max_hops =
    run-HandoffsValid calls (new conversation_id members max_hops) (record { owned = λ id h e. cc })

hand_over_wrote :
    (stage source target : String) (hop : ℕ) (s s' : Mailbox) (h : Handoff)
    → hand_over stage source target hop s ≡ (ok h, s')
    → (lookup stage s'.handoffs ≡ some h)
      × (h.owner_bot_id ≡ target)
      × (h.terminal_source ≡ some source)
      × (h.hop_count ≡ hop + 1)
unfolding hand_over
hand_over_wrote stage source target hop s s' h ran = elim (Option-cases (lookup stage s.handoffs)) [
  | inl miss ↦ cc (rw miss at ran)
  | inr (k, hit) ↦ ground (
    arith,
    rw hit at ran,
    lookup-insert_self s.handoffs stage (record k {
      owner_bot_id = target;
      hop_count = k.hop_count + 1;
      terminal_source = some source;
    }),
  )
]

came_back :
    (stage source target : String) (hop : ℕ) (s : Mailbox) (h : Handoff)
    → lookup stage s.handoffs ≡ some h
    → h.terminal_source ≡ some target
    → (e : MailboxError) × (hand_over stage source target hop s ≡ (err e, s))
unfolding hand_over
came_back stage source target hop s h hit back =
    elim (Bool-cases (h.owner_bot_id != source || h.hop_count != hop)) [
      | inl stale ↦ (handoff_cas_failed, rw (hit, stale))
      | inr current ↦ elim (Bool-cases (not (elem target s.members) || target == source)) [
        | inl bad ↦ (invalid_target, rw (hit, current, bad))
        | inr good ↦ (bounce, rw (hit, current, good, returns h.terminal_source back))
      ]
    ]
  where
    returns : (o : Option String) → o ≡ some target → came_from o target ≡ true
    returns o e = rw e (beq_refl target)

-- A handoff that succeeded cannot be returned at once: the new owner's handoff back to the old one
-- raises, with whatever hop number, and so does a repetition of the same handoff.
pub hand_over_no_bounce :
    (stage source target : String) (hop back_hop : ℕ) (s s' : Mailbox) (h : Handoff)
    → hand_over stage source target hop s ≡ (ok h, s')
    → ((e : MailboxError) × (hand_over stage target source back_hop s' ≡ (err e, s')))
      × (hand_over stage source target hop s' ≡ (err handoff_cas_failed, s'))
unfolding hand_over
hand_over_no_bounce stage source target hop back_hop s s' h ran =
    let (hit, owner, from_source, hops) = hand_over_wrote stage source target hop s s' h ran in
    (
      came_back stage target source back_hop s' h hit from_source,
      rw (hit, moved_on (h.owner_bot_id != source) h.hop_count hop hops),
    )
  where
    moved_on : (c : Bool) (now hop : ℕ) → now ≡ hop + 1 → (c || now != hop) ≡ true
    moved_on true now hop e = refl
    moved_on false now hop e = ground arith

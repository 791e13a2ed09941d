-- ===== src/Conversation/State/Visibility.antt =====
-- Who sees which messages (conversation/state.py).
use grok_bot_data.Prelude.{
  ℕ, String, refl, ap, subst, inl, inr, none, some, List, [], arith, leb, Bool-cases, is_some, ok,
  length, filter, All, some_injective, raise_if-returned, All-append, string_eq, pair_eq, option_eq,
  nat_eq, ◌+◌, ◌≤◌, ◌<◌, ◌≡◌, ◌∷◌, ◌++◌, ◌==◌,
}
use grok_bot_data.Prelude.Dict.{insert, lookup-insert, lookup-insert_self}
use mathlib.Core.List.{reverse, reverse-append}
use grok_bot_data.Conversation.State.{
  Conversation, MemberInterval, Message, active, new, first_active, intervals_of, active_interval,
  add_member, set_last, last_joined, visible_messages,
}

-- The messages are numbered from `n + 1` on.
abbrev pub Numbered : ℕ → List Message → Type 0
Numbered n [] = Unit
Numbered n (m ∷ ms) = (m.sequence ≡ n + 1) × Numbered (n + 1) ms

pub Numbered-append :
    (n : ℕ) (ms : List Message) (m : Message)
    → Numbered n ms
    → m.sequence ≡ n + length ms + 1
    → Numbered n (ms ++ m ∷ [])
Numbered-append n [] m h e = (omega arith, tt)
Numbered-append n (x ∷ ms) m h e = (h.0, Numbered-append (n + 1) ms m h.1 (omega arith))

-- The aggregate's numbering: messages from 1 on, one event for each, and no join in the future.
pub record IsNumbered (s : Conversation) : Type 0 where
  pub sequences : Numbered 0 s.messages
  pub events : s.event_sequence ≡ length s.messages
  pub joins :
      (p : String)
      → All (λ (i : MemberInterval). i.joined_at_seq ≤ length s.messages + 1) (intervals_of s p)

-- None of the messages numbered up to `n + length ms` is from later on.
none_later :
    (n from : ℕ) (ms : List Message)
    → Numbered n ms
    → n + length ms < from
    → filter (λ (m : Message). leb from m.sequence) ms ≡ []
none_later n from [] h lt = refl
none_later n from (m ∷ ms) h lt = ground (arith, h.0, none_later (n + 1) from ms h.1)

pub all_later :
    (n from : ℕ) (ms : List Message)
    → Numbered n ms
    → from ≤ n + 1
    → filter (λ (m : Message). leb from m.sequence) ms ≡ ms
all_later n from [] h le = refl
all_later n from (m ∷ ms) h le = ground (arith, h.0, all_later (n + 1) from ms h.1)

last_joined-append :
    (is : List MemberInterval) (i : MemberInterval)
    → All (λ (j : MemberInterval). j.joined_at_seq ≤ i.joined_at_seq) is
    → last_joined (is ++ i ∷ []) ≡ some i.joined_at_seq
unfolding last_joined
last_joined-append [] i h = refl
last_joined-append (j ∷ is) i h = rw (last_joined-append is i h.1) (ap some (omega (arith, h.0)))

-- the state and the interval of an `add_member` that passes its test
abbrev pub joining : Conversation → String → MemberInterval
joining s p = record { principal_id = p; joined_at_seq = length s.messages + 1; left_at_seq = none }

abbrev pub joined : Conversation → String → Conversation
joined s p = record s {
  policy_generation = s.policy_generation + 1;
  members = insert p (intervals_of s p ++ joining s p ∷ []) s.members;
}

intervals_of-joined :
    (s : Conversation) (p : String)
    → intervals_of (joined s p) p ≡ intervals_of s p ++ joining s p ∷ []
unfolding intervals_of
intervals_of-joined s p = rw (lookup-insert_self s.members p (intervals_of s p ++ joining s p ∷ []))

active_interval-joined :
    (s : Conversation) (p : String) → active_interval (joined s p) p ≡ some (joining s p)
unfolding active_interval first_active
active_interval-joined s p =
    rw (intervals_of-joined s p, reverse-append (intervals_of s p) (joining s p ∷ []))

joined_blind :
    (s : Conversation) (p : String)
    → IsNumbered s
    → visible_messages p (joined s p) ≡ (ok [], joined s p)
unfolding visible_messages
joined_blind s p v = rw (
  active_interval-joined s p,
  intervals_of-joined s p,
  last_joined-append (intervals_of s p) (joining s p) (v.joins p),
  none_later 0 (length s.messages + 1) s.messages v.sequences (omega arith),
)

-- A principal that has just joined sees none of the messages before, also on a second joining.
pub joins_blind :
    (s s' : Conversation) (p : String) (i : MemberInterval)
    → IsNumbered s
    → add_member p s ≡ (ok i, s')
    → visible_messages p s' ≡ (ok [], s')
unfolding add_member
joins_blind s s' p i v ran =
    let (absent, done) = raise_if-returned (is_some (active_interval s p)) _ _ s s' i ran in
    subst (λ t. visible_messages p t ≡ (ok [], t)) (ap (λ r. r.1) done) (joined_blind s p v)

-- What `remove_member` leaves, if its principal is active.
pub All-set_last :
    (P : MemberInterval → Type 0) (is : List MemberInterval) (i : MemberInterval)
    → P i
    → All P is
    → All P (set_last is i)
unfolding set_last
All-set_last P [] i p h = tt
All-set_last P (x ∷ []) i p h = (p, tt)
All-set_last P (x ∷ y ∷ is) i p h = (h.0, All-set_last P (y ∷ is) i p h.1)

pub first_active-All :
    (P : MemberInterval → Type 0) (is : List MemberInterval) (i : MemberInterval)
    → first_active is ≡ some i
    → All P is
    → P i
unfolding first_active
first_active-All P [] i e h = cc
first_active-All P (x ∷ is) i e h = elim (Bool-cases (active x)) [
  | inl here ↦ subst P (some_injective (rw here at e)) h.0
  | inr there ↦ first_active-All P is i (rw there at e) h.1
]

pub All-reverse :
    (P : MemberInterval → Type 0) (is : List MemberInterval) → All P is → All P (reverse is)
All-reverse P [] h = tt
All-reverse P (x ∷ is) h =
    rw (reverse-append (x ∷ []) is)
      (All-append P (reverse is) (x ∷ []) (All-reverse P is h.1) (h.0, tt))

-- a write of the intervals of one principal
pub write-joins :
    (s : Conversation) (n : ℕ) (p q : String) (is : List MemberInterval)
    → All (λ (i : MemberInterval). i.joined_at_seq ≤ n) is
    → All (λ (i : MemberInterval). i.joined_at_seq ≤ n) (intervals_of s q)
    → All
        (λ (i : MemberInterval). i.joined_at_seq ≤ n)
        (intervals_of (record s { members = insert p is s.members }) q)
unfolding intervals_of
write-joins s n p q is new old = elim (Bool-cases (p == q)) [
  | inl here ↦ rw (lookup-insert p q is s.members, here) new
  | inr there ↦ rw (lookup-insert p q is s.members, there) old
]

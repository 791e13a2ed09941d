-- ===== src/Durable/Runs/Serving.antt =====
-- How a row of the table `runs` (packages/platform/src/vda_platform/jobs/repository.py) stands for a
-- tenure, and what one update may do to it.
use grok_bot_data.Prelude.{
  ℕ, String, refl, ap, Bool, true, false, not, Option, none, some, arith, leb→le, some_injective,
  ◌+◌, ◌≤◌, ◌≡◌, ◌&&◌, ◌||◌, ◌∙◌, if◌then◌else◌,
}
use grok_bot_data.Runtime.Runs.{RunState, is_active, is_waiting}
use grok_bot_data.Durable.Tables.{RunRow}
use grok_bot_data.Durable.Runs.Leases.{can_target, releases}
use grok_bot_data.Durable.Runs.Claims.{is_queued, has_expired}
use grok_bot_data.Durable.Runs.Tenure.{
  Tenure, Turn, vacant, held, set_aside, over, claimed, taken_over, used, handed_back, suspended,
  ended,
}

abbrev pub lease_tenure : Option String → Option ℕ → ℕ → Tenure
lease_tenure (some owner) (some expires) fence = held owner fence expires
lease_tenure _ _ fence = over fence

abbrev pub tenure : RunState → Option String → Option ℕ → ℕ → Tenure
tenure RunState.queued owner expires fence = vacant fence
tenure RunState.leased owner expires fence = lease_tenure owner expires fence
tenure RunState.running owner expires fence = lease_tenure owner expires fence
tenure RunState.waiting owner expires fence = set_aside fence
tenure _ owner expires fence = over fence

abbrev pub tenure_of : {P : Type 0} → RunRow P → Tenure
tenure_of row = tenure row.state row.lease_owner row.lease_expires_at row.fence

abbrev pub lease_matches : RunState → Option String → Option ℕ → Bool
lease_matches state none none = not (is_active state)
lease_matches state (some owner) (some expires) = is_active state
lease_matches state _ _ = false

-- A row has an owner and a deadline exactly while it is leased or running.
abbrev pub HasLease : {P : Type 0} → RunRow P → Type 0
HasLease row = lease_matches row.state row.lease_owner row.lease_expires_at ≡ true

-- What no update changes.
abbrev pub identity :
    {P : Type 0} → RunRow P → String × String × String × Option String × Option String
identity row = (row.id, row.workspace_id, row.task_id, row.conversation_id, row.bot_id)

-- One update at the instant `now`.
pub record Serves {P : Type 0} (now : ℕ) (a b : RunRow P) : Type 0 where
  pub same_identity : identity b ≡ identity a
  pub revision_grows : a.checkpoint_revision ≤ b.checkpoint_revision
  pub keeps_lease : HasLease a → HasLease b
  pub turn : HasLease a → Turn now (tenure_of a) (tenure_of b)

pub active_tenure :
    (state : RunState) (w : String) (due f : ℕ)
    → is_active state ≡ true
    → tenure state (some w) (some due) f ≡ held w f due
active_tenure state w due f h = ground arith

pub waiting_tenure :
    (state : RunState) (owner : Option String) (expires : Option ℕ) (f : ℕ)
    → is_waiting state ≡ true
    → tenure state owner expires f ≡ set_aside f
waiting_tenure state owner expires f h = ground arith

-- An owner has a deadline and holds the run.
pub held_tenure :
    (state : RunState) (owner : Option String) (expires : Option ℕ) (f : ℕ) (w : String)
    → owner ≡ some w
    → lease_matches state owner expires ≡ true
    → (due : ℕ) × (expires ≡ some due) × (tenure state owner expires f ≡ held w f due)
held_tenure state none expires f w same h = cc
held_tenure state (some v) none f w same h = cc
held_tenure state (some v) (some due) f w same h =
    (due, refl, active_tenure state v due f h ∙ ap (λ x. held x f due) (some_injective same))

-- The states that `_transition` writes, from a run that is held.
pub target_turn :
    (now : ℕ) (state : RunState) (w : String) (f due : ℕ)
    → can_target state ≡ true
    → Turn now (held w f due) (
        tenure state
          (if releases state then none else some w)
          (if releases state then none else some due)
          f)
target_turn now RunState.queued w f due h = handed_back w f due
target_turn now RunState.leased w f due h = cc
target_turn now RunState.running w f due h = used w f due due
target_turn now RunState.waiting w f due h = suspended w f due
target_turn now RunState.completed w f due h = ended w f due
target_turn now RunState.handed_off w f due h = cc
target_turn now RunState.failed w f due h = ended w f due
target_turn now RunState.cancelled w f due h = ended w f due

pub target_lease :
    (state : RunState) (w : String) (due : ℕ)
    → can_target state ≡ true
    → lease_matches state
        (if releases state then none else some w)
        (if releases state then none else some due)
      ≡ true
target_lease state w due h = ground arith

-- A run that may be claimed at `now` becomes held.
pub claim_turn :
    (now : ℕ) (state : RunState) (owner : Option String) (expires : Option ℕ) (f : ℕ) (w : String)
    (until : ℕ)
    → is_queued state || is_active state && has_expired now expires ≡ true
    → lease_matches state owner expires ≡ true
    → Turn now (tenure state owner expires f) (held w (f + 1) until)
claim_turn now RunState.queued owner expires f w until due h = claimed w f until
claim_turn now RunState.leased (some v) (some d) f w until due h =
    taken_over v w f d until (leb→le d now due)
claim_turn now RunState.running (some v) (some d) f w until due h =
    taken_over v w f d until (leb→le d now due)
claim_turn now RunState.leased none none f w until due h = cc
claim_turn now RunState.leased none (some d) f w until due h = cc
claim_turn now RunState.leased (some v) none f w until due h = cc
claim_turn now RunState.running none none f w until due h = cc
claim_turn now RunState.running none (some d) f w until due h = cc
claim_turn now RunState.running (some v) none f w until due h = cc
claim_turn now RunState.waiting owner expires f w until due h = cc
claim_turn now RunState.completed owner expires f w until due h = cc
claim_turn now RunState.handed_off owner expires f w until due h = cc
claim_turn now RunState.failed owner expires f w until due h = cc
claim_turn now RunState.cancelled owner expires f w until due h = cc

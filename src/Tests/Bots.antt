-- ===== src/Tests/Bots.antt =====
-- The theorems on runs and mailboxes at small states.
use mathlib.Core.Bool.{true≢false}
use grok_bot_data.Prelude.{
  ℕ, String, refl, sym, false, Option, none, some, [], arith, err, string_eq, pair_eq, option_eq,
  nat_eq, ◌≡◌, ◌≢◌, ◌∷◌, ◌∙◌, ◌==◌,
}
use grok_bot_data.Prelude.Dict.{lookup, insert}
use grok_bot_data.Runtime.Runs.{Run, RunState, RunLedger, RunError, transition}
use grok_bot_data.Runtime.Runs.Lifecycle.{
  lease_call, step, steps, Stepped, step-Stepped, steps_final, steps_stale,
}
use grok_bot_data.Runtime.Mailbox.{
  Mailbox, MailboxError, MailboxMessage, Handoff, question, request, correlation_reused,
  handoff_cas_failed, new, send, deliver, hand_over,
}
use grok_bot_data.Runtime.Mailbox.Handoffs.{
  create_call, handoff_call, HandoffsValid, steps-HandoffsValid, hand_over_no_bounce,
  steps as mailbox_steps,
}
use grok_bot_data.Runtime.Mailbox.Messages.{send_retry}

abbrev run_in : RunState → ℕ → Run ℕ
run_in state fence = record {
  run_id = "run";
  workspace_id = "team";
  conversation_id = "talk";
  bot_id = "analyst";
  state = state;
  lease_owner = some "alpha";
  fence = fence;
  checkpoint_revision = 0;
  checkpoint = none;
  wait_reason = none;
  error_code = none;
}

abbrev ledger_of : Run ℕ → RunLedger ℕ
ledger_of run = record { runs = ("run", run) ∷ [] }

step-Stepped_example :
    (b : Run ℕ) × (lookup "run"
        (step (lease_call "run" "beta") (ledger_of (run_in RunState.queued 3))).runs
      ≡ some b)
    × Stepped (run_in RunState.queued 3) b
unfolding lookup
step-Stepped_example =
    step-Stepped (lease_call "run" "beta") (ledger_of (run_in RunState.queued 3)) "run"
      (run_in RunState.queued 3) refl

steps_final_example :
    lookup "run"
      (steps (lease_call "run" "beta" ∷ []) (ledger_of (run_in RunState.completed 3))).runs
    ≡ some (run_in RunState.completed 3)
unfolding lookup
steps_final_example =
    steps_final (lease_call "run" "beta" ∷ []) (ledger_of (run_in RunState.completed 3)) "run"
      (run_in RunState.completed 3) refl refl

steps_stale_example :
    transition "run" "alpha" 2 RunState.completed none
      (steps (lease_call "run" "beta" ∷ []) (ledger_of (run_in RunState.running 3)))
    ≡ (
      err RunError.fence_error,
      steps (lease_call "run" "beta" ∷ []) (ledger_of (run_in RunState.running 3)),
    )
unfolding lookup
steps_stale_example =
    steps_stale (lease_call "run" "beta" ∷ []) (ledger_of (run_in RunState.running 3)) "run" "alpha"
      2 (run_in RunState.running 3) RunState.completed none refl (omega arith)

steps-HandoffsValid_example : HandoffsValid (
    mailbox_steps
      (create_call "stage" "alpha" ∷ handoff_call "stage" "alpha" "beta" 0 ∷ [])
      (new "talk" ("alpha" ∷ "beta" ∷ []) 3))
steps-HandoffsValid_example =
    steps-HandoffsValid (create_call "stage" "alpha" ∷ handoff_call "stage" "alpha" "beta" 0 ∷ [])
      "talk" ("alpha" ∷ "beta" ∷ []) 3

abbrev stage_of : String → ℕ → Option String → Handoff
stage_of owner hops source = record {
  stage_id = "stage";
  conversation_id = "talk";
  owner_bot_id = owner;
  hop_count = hops;
  terminal_source = source;
}

abbrev mailbox_with : Handoff → Mailbox
mailbox_with h = record {
  conversation_id = "talk";
  members = "alpha" ∷ "beta" ∷ [];
  max_hops = 3;
  messages = [];
  handoffs = ("stage", h) ∷ [];
}

hand_over_no_bounce_example :
    ((e : MailboxError) × (hand_over "stage" "beta" "alpha" 1
          (mailbox_with (stage_of "beta" 1 (some "alpha")))
        ≡ (err e, mailbox_with (stage_of "beta" 1 (some "alpha")))))
    × (hand_over "stage" "alpha" "beta" 0 (mailbox_with (stage_of "beta" 1 (some "alpha")))
        ≡ (err handoff_cas_failed, mailbox_with (stage_of "beta" 1 (some "alpha"))))
unfolding hand_over lookup insert
hand_over_no_bounce_example =
    hand_over_no_bounce "stage" "alpha" "beta" 0 1 (mailbox_with (stage_of "alpha" 0 none))
      (mailbox_with (stage_of "beta" 1 (some "alpha"))) (stage_of "beta" 1 (some "alpha")) refl

abbrev asked : MailboxMessage
asked = record {
  message_id = "c1:beta";
  correlation_id = "c1";
  conversation_id = "talk";
  source_bot_id = "alpha";
  target_bot_id = "beta";
  kind = question;
  body = "why?";
}

abbrev pair_mailbox : Mailbox
pair_mailbox = record {
  conversation_id = "talk";
  members = "alpha" ∷ "beta" ∷ [];
  max_hops = 3;
  messages = [];
  handoffs = [];
}

abbrev asked_mailbox : Mailbox
asked_mailbox = record pair_mailbox { messages = (("c1", "beta"), asked) ∷ [] }

literal_differs : (a b : String) → (a == b) ≡ false → a ≢ b
literal_differs a b other h = true≢false (sym ((string_eq.test_iff a b).1 h) ∙ other)

send_retry_example :
    send "c1" "alpha" "beta" request "how?" asked_mailbox ≡ (err correlation_reused, asked_mailbox)
unfolding send deliver lookup insert
send_retry_example =
    send_retry "c1" "alpha" "beta" question request "why?" "how?" pair_mailbox asked_mailbox asked
      refl (literal_differs "how?" "" refl)

-- ===== src/Tests/Effects.antt =====
-- The theorems on effects and tool executions of the runtime ledger in PostgreSQL at a small database.
use grok_bot_data.Prelude.{
  String, refl, err, arith, true, none, some, List, [], ok, string_eq, pair_eq, option_eq, nat_eq,
  ◌≡◌, ◌⊎◌, ◌∷◌,
}
use grok_bot_data.Prelude.Dict.{lookup, insert}
use grok_bot_data.Durable.Tables.{
  Database, EffectRow, EffectState, tool_key_reused, ToolRow, ToolState,
}
use grok_bot_data.Durable.Operations.{
  effect_record, keep_tool, write_tool, update_effect, reconcile_effect, record_tool_execution,
  is_unknown, is_reconciled,
}
use grok_bot_data.Durable.Operations.Effects.{
  EffectCall, Moves, effect_steps, reconciled_row, reserve_call, reconcile_call,
}
use grok_bot_data.Durable.Operations.Settling.{
  effect_steps-Moves, effect_steps-reconciled, reconcile_effect-returned,
}
use grok_bot_data.Durable.Operations.Tools.{tool_record}
use grok_bot_data.Durable.Operations.Recordings.{IsAdmissible, Recording, record_steps, recorded}
use grok_bot_data.Durable.Operations.Retrying.{
  Differs, other_version, record_tool_execution-retry, record_tool_execution-reused,
}
use grok_bot_data.Tests.Ledgers.{host, leased_row, with_run}

abbrev effect : EffectRow
effect = record {
  id = "effect";
  run_id = "run";
  attempt_id = "a1";
  operation_key = "op";
  state = EffectState.unknown;
  result_ref = none;
}

abbrev with_effect : Database String
with_effect = record (with_run leased_row) { effects = (("team", "op"), effect) ∷ [] }

found_effect : lookup ("team", "op") with_effect.effects ≡ some effect
unfolding lookup
found_effect = refl

abbrev settling : List EffectCall
settling =
    reconcile_call "team" "op" "r1"
    ∷ reserve_call "e2" "team" "run" "a1" "op"
    ∷ reconcile_call "team" "op" "r2"
    ∷ []

effect_steps-Moves_example :
    (b : EffectRow) × (lookup ("team", "op") (effect_steps settling with_effect).effects ≡ some b)
    × Moves ("team", "op") settling effect b
effect_steps-Moves_example =
    effect_steps-Moves settling with_effect ("team", "op") effect found_effect

abbrev settled_effect : EffectRow
settled_effect = record effect { state = EffectState.reconciled; result_ref = some "r1" }

abbrev settled_database : Database String
settled_database = record (with_run leased_row) { effects = (("team", "op"), settled_effect) ∷ [] }

reconciled :
    reconcile_effect "team" "op" "r1" with_effect
    ≡ (ok (effect_record settled_effect), settled_database)
unfolding reconcile_effect update_effect lookup insert
reconciled = refl

reconcile_effect-returned_example :
    (a : EffectRow) × (lookup ("team", "op") with_effect.effects ≡ some a)
    × ((is_unknown a.state ≡ true) ⊎ ((is_reconciled a.state ≡ true) × (a.result_ref ≡ some "r1")))
    × (lookup ("team", "op") settled_database.effects ≡ some (reconciled_row a "r1"))
    × (effect_record settled_effect ≡ effect_record (reconciled_row a "r1"))
reconcile_effect-returned_example =
    reconcile_effect-returned "team" "op" "r1" with_effect settled_database
      (effect_record settled_effect) reconciled

found_settled : lookup ("team", "op") settled_database.effects ≡ some settled_effect
unfolding lookup
found_settled = refl

effect_steps-reconciled_example :
    lookup ("team", "op") (effect_steps settling settled_database).effects ≡ some settled_effect
effect_steps-reconciled_example =
    effect_steps-reconciled settling settled_database ("team", "op") settled_effect found_settled
      refl

abbrev tool : ToolRow String
tool = record {
  id = "t1";
  run_id = "run";
  attempt_id = "a1";
  operation_key = "op";
  tool_id = "profile";
  tool_version = "1";
  effect_class = "read";
  state = ToolState.succeeded;
  input_json = "rows";
  output_json = some "ten";
}

abbrev with_tool : Database String
with_tool = record (with_run leased_row) { tool_executions = (("team", "op"), tool) ∷ [] }

abbrev recording : Recording String
recording = record {
  execution_id = "t1";
  workspace_id = "team";
  run_id = "run";
  attempt_id = "a1";
  operation_key = "op";
  tool_id = "profile";
  tool_version = "1";
  effect_class = "read";
  input_payload = "rows";
  state = "succeeded";
  output = some "ten";
}

recorded_first : recorded host recording (with_run leased_row) ≡ (ok (tool_record tool), with_tool)
unfolding recorded record_tool_execution keep_tool write_tool lookup insert
recorded_first = refl

-- another worker's call under another key, and one under the same key
abbrev meanwhile : List (Recording String)
meanwhile =
    record recording { operation_key = "op2" } ∷ record recording { tool_version = "2" } ∷ []

record_tool_execution-retry_example :
    recorded host
      (record recording { execution_id = "t2"; state = "failed"; output = none })
      (record_steps host meanwhile with_tool)
    ≡ (ok (tool_record tool), record_steps host meanwhile with_tool)
record_tool_execution-retry_example =
    record_tool_execution-retry host recording meanwhile (with_run leased_row) with_tool
      (tool_record tool) "t2" "failed" none ToolState.failed recorded_first refl refl

abbrev other_recording : Recording String
other_recording = record recording { tool_version = "2" }

other_versions : Differs recording other_recording
other_versions = other_version (λ same. absurd (no_version same))
  where
    no_version : Path String "1" "2" → ⊥
    no_version same = ground (arith, (string_eq.test_iff "1" "2").1 same)

admissible : IsAdmissible host other_recording ToolState.succeeded
admissible = record {
  named = refl;
  classed = refl;
  parsed = refl;
  input_is_safe = refl;
  output_is_safe = refl;
}

record_tool_execution-reused_example :
    recorded host other_recording (record_steps host meanwhile with_tool)
    ≡ (err tool_key_reused, record_steps host meanwhile with_tool)
record_tool_execution-reused_example =
    record_tool_execution-reused host recording other_recording meanwhile (with_run leased_row)
      with_tool (tool_record tool) ToolState.succeeded recorded_first refl other_versions admissible

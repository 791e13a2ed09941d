-- ===== src/Durable/Operations/Tools.antt =====
-- `record_tool_execution` of packages/platform/src/vda_platform/jobs/repository.py: an operation key
-- stands for one execution.
use grok_bot_data.Prelude.{
  String, refl, inl, inr, true, false, some, [], Bool-cases, ok, err, any, string_eq, pair_eq,
  option_eq, nat_eq, ◌≡◌, ◌∷◌, ◌==◌, if◌then◌else◌,
}
use grok_bot_data.Prelude.Dict.{lookup}
use grok_bot_data.Durable.Tables.{Database, Host, ToolRow, tool_key_reused}
use grok_bot_data.Durable.Operations.{
  ToolExecutionRecord, input_differs, is_effect_class, keep_tool, output_safe,
  record_tool_execution, tool_state, write_tool,
}

abbrev pub tool_record : {P : Type 0} → ToolRow P → ToolExecutionRecord P
tool_record row = record {
  execution_id = row.id;
  operation_key = row.operation_key;
  state = row.state;
  output = row.output_json;
}

module _ {P : Type 0} (host : Host P) where
  keep_tool-known :
      (workspace_id : String) (given row : ToolRow P) (s : Database P)
      → host.json_safe given.input_json ≡ true
      → output_safe host given.output_json ≡ true
      → lookup (workspace_id, given.operation_key) s.tool_executions ≡ some row
      → keep_tool host workspace_id given s
        ≡ (if input_differs host row given then err tool_key_reused else ok (tool_record row), s)
  unfolding keep_tool write_tool
  keep_tool-known workspace_id given row s safe out hit =
      elim (Bool-cases (input_differs host row given)) [
        | inl differs ↦ rw (safe, out, hit, hit, differs) refl
        | inr same ↦ rw (safe, out, hit, hit, same) refl
      ]

  -- A call under a key that is there, with valid arguments.
  pub record_tool_execution-known :
      (given row : ToolRow P) (workspace_id state : String) (s : Database P)
      → any
          (λ name. name == "")
          (workspace_id ∷ given.run_id ∷ given.attempt_id ∷ given.operation_key ∷ given.tool_id
            ∷ given.tool_version ∷ [])
        ≡ false
      → is_effect_class given.effect_class ≡ true
      → tool_state state ≡ some given.state
      → host.json_safe given.input_json ≡ true
      → output_safe host given.output_json ≡ true
      → lookup (workspace_id, given.operation_key) s.tool_executions ≡ some row
      → record_tool_execution host given.id workspace_id given.run_id given.attempt_id
          given.operation_key given.tool_id given.tool_version given.effect_class given.input_json
          state given.output_json s
        ≡ (if input_differs host row given then err tool_key_reused else ok (tool_record row), s)
  unfolding record_tool_execution
  record_tool_execution-known given row workspace_id state s names class parsed safe out hit =
      elim (Bool-cases (input_differs host row given)) [
        | inl differs ↦
            rw
              (names, class, parsed, keep_tool-known workspace_id given row s safe out hit, differs)
              refl
        | inr same ↦
            rw (names, class, parsed, keep_tool-known workspace_id given row s safe out hit, same)
              refl
      ]

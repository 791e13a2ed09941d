-- ===== src/Tests/Turns.antt =====
-- The theorem on bot turns at a small runtime, whose model calls one tool twice.
use grok_bot_data.Prelude.{ℕ, String, Bool, true, none, [], ok, ◌+◌, ◌∷◌, nat_eq, false}
use grok_bot_data.Prelude.Dict.{Dict}
use grok_bot_data.Tools.Registry.{ToolHandler, ToolRegistry, ToolSpec}
use grok_bot_data.Runtime.Turn.{BotRuntime, Texts, ToolCall, TurnRequest, execute}
use grok_bot_data.Runtime.Turn.Limits.{Limited, execute-Limited}

abbrev yes : ℕ → Bool
yes value = true

abbrev texts : Texts ℕ ℕ
texts = record {
  length_of = λ text. 4;
  utf8_length = λ text. 4;
  show = λ n. "0";
  is_identifier = λ name. true;
  class_of_handler_error = λ x. "timeouterror";
  is_denial = λ x. false;
  is_validation_error = λ x. false;
  class_of_provider_error = λ y. "providererror";
}

abbrev count : ToolCall ℕ
count = record { tool_id = "count"; payload = [] }

abbrev runtime : BotRuntime ℕ ℕ
runtime = record {
  complete = λ context tools.
      ok (record { text = "done"; tool_calls = count ∷ count ∷ []; provider = "p"; model = "m" });
  max_tool_calls = 3;
  max_output_chars = 16000;
}

abbrev request : TurnRequest
request = record {
  actor_id = "ann";
  bot_id = "bot";
  bot_template = "analyst";
  workspace_id = "team";
  conversation_id = "talk";
  grant_version = 1;
  policy_generation = 1;
  fence = 1;
  idempotency_key = "turn";
  system = "be kind";
  history = [];
  memories = [];
  results = [];
  budget = none;
}

abbrev counting : Dict String (ToolHandler ℕ ℕ ℕ ℕ)
counting = ("count", λ context payload runs. (ok 42, runs + 1)) ∷ []

abbrev count_spec : ToolSpec ℕ
count_spec = record {
  tool_id = "count";
  grants = "analyst" ∷ [];
  properties = [];
  required = [];
  effect = "write";
}

abbrev registry : ToolRegistry ℕ ℕ ℕ
registry = record { specs = ("count", count_spec) ∷ []; effects = []; world = 0 }

execute-Limited_example :
    Limited yes yes yes texts counting runtime request registry
      (execute yes yes yes texts counting runtime request registry)
execute-Limited_example = execute-Limited yes yes yes texts counting runtime request registry

-- ===== src/Tests/Tooling.antt =====
-- The theorem on tools at a small registry. A value is a number, and counts as an integer.
use grok_bot_data.Prelude.{
  ℕ, String, refl, Bool, true, false, none, some, [], ok, ◌+◌, ◌≡◌, ◌∷◌, string_eq, pair_eq, nat_eq,
  option_eq,
}
use grok_bot_data.Prelude.Dict.{Dict, lookup, insert}
use grok_bot_data.Tools.Registry.{
  ToolContext, ToolSpec, ToolRegistry, ToolHandler, invoke, perform, validate, check_values,
  check_value,
}
use grok_bot_data.Tools.Registry.Once.{invoke_once, invocations}

abbrev yes : ℕ → Bool
yes value = true

abbrev no : ℕ → Bool
no value = false

abbrev publish : ToolSpec ℕ
publish = record {
  tool_id = "publish";
  grants = "analyst" ∷ [];
  properties = ("rows", record { type_name = some "integer"; enum = none }) ∷ [];
  required = "rows" ∷ [];
  effect = "write";
}

abbrev context : ToolContext
context = record {
  actor_id = "ann";
  bot_template = "analyst";
  workspace_id = "team";
  conversation_id = "talk";
  grant_version = 1;
  policy_generation = 1;
  fence = 1;
  idempotency_key = "turn:0";
}

-- A handler that counts its runs in the world.
abbrev counting : ToolHandler ℕ ℕ ℕ ℕ
counting c payload runs = (ok 42, runs + 1)

abbrev registry : ToolRegistry ℕ ℕ ℕ
registry = record { specs = ("publish", publish) ∷ []; effects = []; world = 0 }

abbrev performed_once : ToolRegistry ℕ ℕ ℕ
performed_once = record registry { effects = ((("ann", "publish"), "turn:0"), 42) ∷ []; world = 1 }

abbrev rows : ℕ → Dict String ℕ
rows n = ("rows", n) ∷ []

invoke_once_example :
    invoke no yes no "publish" context (rows 9) counting performed_once ≡ (ok 42, performed_once)
unfolding invoke perform validate check_values check_value invocations lookup insert
invoke_once_example =
    invoke_once no yes no "publish" publish refl context context (rows 7) (rows 9) counting counting
      registry performed_once 42 [] refl refl refl refl refl

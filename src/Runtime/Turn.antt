-- ===== src/Runtime/Turn.antt =====
-- packages/platform/src/vda_platform/runtime/loop.py: `BotRuntime`, and the model's response of
-- runtime/model.py. The provider is the parameter `complete`, which answers or raises a `Y`. Further
-- parameters are the length of a text, its bytes in UTF-8, the decimal text of a number, the class
-- names of exceptions in lower case, whether a handler's exception is a `ToolDenied` or a
-- `ToolValidationError`, `str.isidentifier`, and the tests of the tool registry.
pub mod Limits
use grok_bot_data.Prelude.{
  ℕ, String, Bool, true, false, Option, none, some, List, [], map, ltb, Eq, Result, ok, err, length,
  any, ◌+◌, ◌∷◌, if◌then◌else◌, string_eq, pair_eq, nat_eq, option_eq,
}
use grok_bot_data.Prelude.Dict.{Dict, lookup}
use Prim.Native.String.{◌++◌ as concat}
use grok_bot_data.Memory.Context.{
  BuiltContext, ContextBudget, ContextOverflow, MemoryRecord, build_context,
}
use grok_bot_data.Tools.Registry.{
  ToolContext, ToolError, ToolHandler, ToolRegistry, tool_denied, validation_error, handler_error,
  allowed_tools, invoke,
}

pub data TurnStatus : Type 0 where
  status_ok needs_input denied failed : TurnStatus

pub record ToolResult (R : Type 0) : Type 0 where
  pub tool_id : String
  pub status : TurnStatus
  pub result : Option R
  pub error : Option String

pub record BotTurn (R : Type 0) : Type 0 where
  pub status : TurnStatus
  pub text : String
  pub provider : String
  pub model : String
  pub context : Option BuiltContext
  pub tool_results : List (ToolResult R)
  pub error_code : Option String

-- `ToolCall` and `ModelResponse`, without the token counts, which the turn does not read
pub record ToolCall (V : Type 0) : Type 0 where
  pub tool_id : String
  pub payload : Dict String V

pub record ModelResponse (V : Type 0) : Type 0 where
  pub text : String
  pub tool_calls : List (ToolCall V)
  pub provider : String
  pub model : String

-- the arguments of `execute`, but for the handlers
pub record TurnRequest : Type 0 where
  pub actor_id : String
  pub bot_id : String
  pub bot_template : String
  pub workspace_id : String
  pub conversation_id : String
  pub grant_version : ℕ
  pub policy_generation : ℕ
  pub fence : ℕ
  pub idempotency_key : String
  pub system : String
  pub history : List String
  pub memories : List MemoryRecord
  pub results : List String
  pub budget : Option ContextBudget

-- what the turn reads of Python's texts and exceptions
pub record Texts (X Y : Type 0) : Type 0 where
  pub length_of : String → ℕ
  pub utf8_length : String → ℕ
  pub show : ℕ → String
  pub is_identifier : String → Bool
  pub class_of_handler_error : X → String
  pub is_denial : X → Bool
  pub is_validation_error : X → Bool
  pub class_of_provider_error : Y → String

-- the fields of `BotRuntime`, but for the registry
pub record BotRuntime (V Y : Type 0) : Type 0 where
  pub complete : List String → List String → Result Y (ModelResponse V)
  pub max_tool_calls : ℕ
  pub max_output_chars : ℕ

abbrev pub is_denied : TurnStatus → Bool
is_denied denied = true
is_denied _ = false

abbrev pub is_failed : TurnStatus → Bool
is_failed failed = true
is_failed _ = false

-- the status of a turn from those of its tools
unfoldable pub turn_status : {R : Type 0} → List (ToolResult R) → TurnStatus
turn_status results =
    if any (λ result. is_denied result.status) results
    then denied
    else if any (λ result. is_failed result.status) results
    then failed
    else status_ok

-- a turn without a context or a response
abbrev pub stopped : {R : Type 0} → TurnStatus → Option BuiltContext → String → BotTurn R
stopped status context code = record {
  status = status;
  text = "";
  provider = "unknown";
  model = "unknown";
  context = context;
  tool_results = [];
  error_code = some code;
}

module _ {V R W X Y : Type 0} ⦃e : Eq V⦄ (is_string is_integer is_array : V → Bool)
    (texts : Texts X Y) (handlers : Dict String (ToolHandler V R W X)) where
  -- `_safe_error_code`
  unfoldable pub safe_error_code : String → String
  safe_error_code name = if texts.is_identifier name then name else "provider_error"

  abbrev pub refused_result : String → TurnStatus → String → ToolResult R
  refused_result tool_id status code = record {
    tool_id = tool_id;
    status = status;
    result = none;
    error = some code;
  }

  -- the `try` around `invoke`
  unfoldable pub result_of : String → Result (ToolError X) R → ToolResult R
  unfolding safe_error_code
  result_of tool_id (ok r) = record {
    tool_id = tool_id;
    status = status_ok;
    result = some r;
    error = none;
  }
  result_of tool_id (err tool_denied) = refused_result tool_id denied "tool_denied"
  result_of tool_id (err (validation_error problem)) =
      refused_result tool_id failed "tool_input_invalid"
  result_of tool_id (err (handler_error x)) =
      if texts.is_denial x
      then refused_result tool_id denied "tool_denied"
      else if texts.is_validation_error x
      then refused_result tool_id failed "tool_input_invalid"
      else refused_result tool_id failed (safe_error_code (texts.class_of_handler_error x))

  -- `tool_context` at an index of the loop
  abbrev pub context_at : TurnRequest → ℕ → ToolContext
  context_at request index = record {
    actor_id = request.actor_id;
    bot_template = request.bot_template;
    workspace_id = request.workspace_id;
    conversation_id = request.conversation_id;
    grant_version = request.grant_version;
    policy_generation = request.policy_generation;
    fence = request.fence;
    idempotency_key = concat request.idempotency_key (concat ":" (texts.show index));
  }

  -- one turn of the loop over the tool calls
  unfoldable pub run_call :
      TurnRequest
      → ℕ
      → ToolCall V
      → Option (ToolHandler V R W X)
      → ToolRegistry V R W
      → ToolResult R × ToolRegistry V R W
  unfolding result_of
  run_call request index call none s = (refused_result call.tool_id denied "handler_unavailable", s)
  run_call request index call (some handler) s =
      let (reply, s') =
        invoke is_string is_integer is_array call.tool_id (context_at request index) call.payload
          handler s in
      (result_of call.tool_id reply, s')

  unfoldable pub run_calls :
      TurnRequest
      → ℕ
      → List (ToolCall V)
      → ToolRegistry V R W
      → List (ToolResult R) × ToolRegistry V R W
  unfolding run_call
  run_calls request index [] s = ([], s)
  run_calls request index (call ∷ rest) s =
      let (result, s') = run_call request index call (lookup call.tool_id handlers) s in
      let (results, s'') = run_calls request (index + 1) rest s' in (result ∷ results, s'')

  module _ (runtime : BotRuntime V Y) where
    -- `execute` behind the model's response
    unfoldable pub respond :
        TurnRequest
        → BuiltContext
        → ModelResponse V
        → ToolRegistry V R W
        → BotTurn R × ToolRegistry V R W
    unfolding run_calls turn_status
    respond request context response s =
        let (results, s') = run_calls request 0 response.tool_calls s in
        if ltb runtime.max_output_chars (texts.length_of response.text)
        then (
          record {
            status = failed;
            text = "";
            provider = response.provider;
            model = response.model;
            context = some context;
            tool_results = [];
            error_code = some "model_output_limit";
          },
          s,
        )
        else if ltb runtime.max_tool_calls (length response.tool_calls)
        then (
          record {
            status = failed;
            text = response.text;
            provider = response.provider;
            model = response.model;
            context = some context;
            tool_results = [];
            error_code = some "tool_call_limit";
          },
          s,
        )
        else (
          record {
            status = turn_status results;
            text = response.text;
            provider = response.provider;
            model = response.model;
            context = some context;
            tool_results = results;
            error_code = none;
          },
          s',
        )

    -- `execute` behind the provider's call
    unfoldable pub answer :
        TurnRequest
        → BuiltContext
        → Result Y (ModelResponse V)
        → ToolRegistry V R W
        → BotTurn R × ToolRegistry V R W
    unfolding respond safe_error_code
    answer request context (ok response) s = respond request context response s
    answer request context (err y) s =
        (stopped failed (some context) (safe_error_code (texts.class_of_provider_error y)), s)

    -- `execute` behind `build_context`
    unfoldable pub with_context :
        TurnRequest
        → List String
        → Result ContextOverflow BuiltContext
        → ToolRegistry V R W
        → BotTurn R × ToolRegistry V R W
    unfolding answer
    with_context request allowed (err overflow) s =
        (stopped needs_input none "context_budget_exceeded", s)
    with_context request allowed (ok context) s =
        answer request context (runtime.complete (map (λ item. item.content) context.items) allowed)
          s

    -- `BotRuntime.execute`
    unfoldable pub execute : TurnRequest → ToolRegistry V R W → BotTurn R × ToolRegistry V R W
    unfolding with_context allowed_tools build_context
    execute request s =
        let allowed = allowed_tools request.bot_template s in
        with_context request allowed
          (build_context texts.utf8_length request.conversation_id request.bot_id request.system
            allowed request.history request.memories request.results request.budget 0)
          s

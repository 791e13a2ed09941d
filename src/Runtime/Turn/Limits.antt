-- ===== src/Runtime/Turn/Limits.antt =====
-- The limits of a turn (runtime/loop.py).
use grok_bot_data.Prelude.{
  ℕ, suc, String, refl, ap, inl, inr, Bool, true, false, any, List, [], map, arith, ltb, Bool-cases,
  Eq, Result, ok, err, length, string_eq, pair_eq, option_eq, nat_eq, ◌+◌, ◌≤◌, ◌≡◌, ◌⊎◌, ◌∷◌,
}
use grok_bot_data.Prelude.Dict.{Dict, lookup}
use grok_bot_data.Memory.Context.{ContextItem, BuiltContext, ContextOverflow}
use grok_bot_data.Tools.Registry.{ToolHandler, ToolRegistry}
use grok_bot_data.Runtime.Turn.{
  TurnStatus, ToolResult, denied, failed, status_ok, is_denied, is_failed, Texts, BotRuntime,
  BotTurn, ToolCall, ModelResponse, TurnRequest, turn_status, run_calls, run_call, respond, answer,
  with_context, execute,
}

-- The status that results ask for.
abbrev pub HasStatusOf : {R : Type 0} → List (ToolResult R) → TurnStatus → Type 0
HasStatusOf results status =
    ((any (λ result. is_denied result.status) results ≡ true) × (status ≡ denied))
    ⊎ ((any (λ result. is_denied result.status) results ≡ false)
        × (any (λ result. is_failed result.status) results ≡ true)
        × (status ≡ failed))
    ⊎ ((any (λ result. is_denied result.status) results ≡ false)
        × (any (λ result. is_failed result.status) results ≡ false)
        × (status ≡ status_ok))

turn_status-HasStatusOf :
    {R : Type 0} (results : List (ToolResult R)) → HasStatusOf results (turn_status results)
unfolding turn_status
turn_status-HasStatusOf results = ground arith

module _ {V R W X Y : Type 0} ⦃e : Eq V⦄ (is_string is_integer is_array : V → Bool)
    (texts : Texts X Y) (handlers : Dict String (ToolHandler V R W X)) where
  length-run_calls :
      (request : TurnRequest) (index : ℕ) (calls : List (ToolCall V)) (s : ToolRegistry V R W)
      → length (run_calls is_string is_integer is_array texts handlers request index calls s).0
        ≡ length calls
  unfolding run_calls
  length-run_calls request index [] s = refl
  length-run_calls request index (call ∷ rest) s = ap suc (
      length-run_calls request (index + 1) rest
        (run_call is_string is_integer is_array texts handlers request index call
          (lookup call.tool_id handlers) s).1)

  module _ (runtime : BotRuntime V Y) (request : TurnRequest) where
    -- What a turn may be.
    abbrev pub Limited : ToolRegistry V R W → BotTurn R × ToolRegistry V R W → Type 0
    Limited s reply =
        ((reply.1 ≡ s) × (reply.0.tool_results ≡ []))
        ⊎ ((length reply.0.tool_results ≤ runtime.max_tool_calls)
            × HasStatusOf reply.0.tool_results reply.0.status)

    respond-Limited :
        (context : BuiltContext) (response : ModelResponse V) (s : ToolRegistry V R W)
        → Limited s (
            respond is_string is_integer is_array texts handlers runtime request context response s)
    unfolding respond
    respond-Limited context response s =
        elim (Bool-cases (ltb runtime.max_output_chars (texts.length_of response.text))) [
          | inl long ↦ rw long (inl (refl, refl))
          | inr short ↦
              elim (Bool-cases (ltb runtime.max_tool_calls (length response.tool_calls))) [
                | inl many ↦ rw (short, many) (inl (refl, refl))
                | inr few ↦
                    rw (short, few)
                      (inr (
                        within (length response.tool_calls) _
                            (length-run_calls request 0 response.tool_calls s) few,
                        turn_status-HasStatusOf
                            (run_calls is_string is_integer is_array texts handlers request 0
                              response.tool_calls s).0,
                      ))
              ]
        ]
      where
        within :
            (n m : ℕ) → m ≡ n → ltb runtime.max_tool_calls n ≡ false → m ≤ runtime.max_tool_calls
        within n m same h = ground arith

    answer-Limited :
        (context : BuiltContext) (reply : Result Y (ModelResponse V)) (s : ToolRegistry V R W)
        → Limited s
            (answer is_string is_integer is_array texts handlers runtime request context reply s)
    unfolding answer
    answer-Limited context (ok response) s = respond-Limited context response s
    answer-Limited context (err y) s = inl (refl, refl)

    with_context-Limited :
        (allowed : List String) (context : Result ContextOverflow BuiltContext)
        (s : ToolRegistry V R W)
        → Limited s (
            with_context is_string is_integer is_array texts handlers runtime request allowed
              context s)
    unfolding with_context
    with_context-Limited allowed (ok context) s =
        answer-Limited context
          (runtime.complete (map (λ (item : ContextItem). item.content) context.items) allowed) s
    with_context-Limited allowed (err overflow) s = inl (refl, refl)

    -- A turn either stops before any tool ran, with the registry as it was and no result of a tool,
    -- or it has at most `max_tool_calls` results and the status that they ask for: denied if one was
    -- denied, else failed if one failed, else ok.
    pub execute-Limited :
        (s : ToolRegistry V R W)
        → Limited s (execute is_string is_integer is_array texts handlers runtime request s)
    unfolding execute
    execute-Limited s = with_context-Limited _ _ s

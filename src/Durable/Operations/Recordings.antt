-- ===== src/Durable/Operations/Recordings.antt =====
-- How a call of `record_tool_execution` (packages/platform/src/vda_platform/jobs/repository.py) may
-- end.
use grok_bot_data.Prelude.{
  String, Bool, Option, none, List, Option-cases, refl, inl, inr, true, false, some, [], Bool-cases,
  ok, err, any, string_eq, pair_eq, option_eq, nat_eq, ◌≡◌, ◌∷◌, ◌==◌, if◌then◌else◌, Result, not,
  ◌&&◌,
}
use grok_bot_data.Prelude.Dict.{lookup, insert, values, lookup-insert_self}
use grok_bot_data.Durable.Tables.{
  Database, Host, RepositoryCommand, RepositoryError, database_error, identity_missing,
  invalid_effect_class, invalid_tool_state, payload_not_json_safe, has_run, has_attempt, ToolRow,
  ToolState, tool_key_reused,
}
use grok_bot_data.Durable.Operations.{
  ToolExecutionRecord, input_differs, is_effect_class, keep_tool, output_safe,
  record_tool_execution, tool_state, write_tool,
}
use grok_bot_data.Durable.Operations.Tools.{record_tool_execution-known, tool_record}

-- the arguments of `record_tool_execution`, and the id that it draws
pub record Recording (P : Type 0) : Type 0 where
  pub execution_id : String
  pub workspace_id : String
  pub run_id : String
  pub attempt_id : String
  pub operation_key : String
  pub tool_id : String
  pub tool_version : String
  pub effect_class : String
  pub input_payload : P
  pub state : String
  pub output : Option P

-- The row that a recording asks for.
abbrev pub row_of : {P : Type 0} → Recording P → ToolState → ToolRow P
row_of c t = record {
  id = c.execution_id;
  run_id = c.run_id;
  attempt_id = c.attempt_id;
  operation_key = c.operation_key;
  tool_id = c.tool_id;
  tool_version = c.tool_version;
  effect_class = c.effect_class;
  state = t;
  input_json = c.input_payload;
  output_json = c.output;
}

abbrev pub key_of : {P : Type 0} → Recording P → String × String
key_of c = (c.workspace_id, c.operation_key)

abbrev pub has_empty_name : {P : Type 0} → Recording P → Bool
has_empty_name c =
    any (λ name. name == "")
      (c.workspace_id ∷ c.run_id ∷ c.attempt_id ∷ c.operation_key ∷ c.tool_id ∷ c.tool_version ∷ [])

module _ {P : Type 0} (host : Host P) where
  -- the call
  unfoldable pub recorded : Recording P → RepositoryCommand P (ToolExecutionRecord P)
  recorded c =
      record_tool_execution host c.execution_id c.workspace_id c.run_id c.attempt_id c.operation_key
        c.tool_id c.tool_version c.effect_class c.input_payload c.state c.output

  -- the database after recordings, those that raise included
  unfoldable pub record_steps : List (Recording P) → Database P → Database P
  record_steps [] s = s
  record_steps (c ∷ rest) s = record_steps rest (recorded c s).1

  -- Arguments that the method takes, with the state that they name.
  pub record IsAdmissible (c : Recording P) (t : ToolState) : Type 0 where
    pub named : has_empty_name c ≡ false
    pub classed : is_effect_class c.effect_class ≡ true
    pub parsed : tool_state c.state ≡ some t
    pub input_is_safe : host.json_safe c.input_payload ≡ true
    pub output_is_safe : output_safe host c.output ≡ true

  -- How a recording ends: refused, with the execution of its key, or with a new one.
  pub data Kept (c : Recording P) (s : Database P)
      (reply : Result RepositoryError (ToolExecutionRecord P) × Database P) : Type 0 where
    refused : (e : RepositoryError) → reply ≡ (err e, s) → Kept c s reply
    known :
        (t : ToolState) (row : ToolRow P)
        → IsAdmissible c t
        → lookup (key_of c) s.tool_executions ≡ some row
        → reply ≡ (
          if input_differs host row (row_of c t) then err tool_key_reused else ok (tool_record row),
          s,
        )
        → Kept c s reply
    added :
        (t : ToolState)
        → IsAdmissible c t
        → lookup (key_of c) s.tool_executions ≡ none
        → input_differs host (row_of c t) (row_of c t) ≡ false
        → reply ≡ (
          ok (tool_record (row_of c t)),
          record s { tool_executions = insert (key_of c) (row_of c t) s.tool_executions },
        )
        → Kept c s reply

  pub recorded-known :
      (c : Recording P) (t : ToolState) (row : ToolRow P) (s : Database P)
      → IsAdmissible c t
      → lookup (key_of c) s.tool_executions ≡ some row
      → recorded c s ≡ (
        if input_differs host row (row_of c t) then err tool_key_reused else ok (tool_record row),
        s,
      )
  unfolding recorded
  recorded-known c t row s h hit =
      record_tool_execution-known host (row_of c t) row c.workspace_id c.state s h.named h.classed
        h.parsed h.input_is_safe h.output_is_safe hit

  -- the constraints of the table on a new row
  abbrev admits : String → ToolRow P → Database P → Bool
  admits workspace_id row s =
      not (any (λ (other : ToolRow P). other.id == row.id) (values s.tool_executions))
      && has_run workspace_id row.run_id s
      && has_attempt workspace_id row.attempt_id s

  recorded-new :
      (c : Recording P) (t : ToolState) (s : Database P)
      → IsAdmissible c t
      → lookup (key_of c) s.tool_executions ≡ none
      → Kept c s (recorded c s)
  unfolding recorded record_tool_execution keep_tool write_tool
  recorded-new c t s h miss =
      let row = row_of c t in
      elim (Bool-cases (admits c.workspace_id row s)) [
        | inl admitted ↦ elim (Bool-cases (input_differs host row row)) [
          | inl differs ↦ refused tool_key_reused (
              rw
                (
                  h.named,
                  h.classed,
                  h.parsed,
                  h.input_is_safe,
                  h.output_is_safe,
                  miss,
                  admitted,
                  lookup-insert_self s.tool_executions (key_of c) row,
                  differs,
                )
                refl)
          | inr same ↦ added t h miss same (
              rw
                (
                  h.named,
                  h.classed,
                  h.parsed,
                  h.input_is_safe,
                  h.output_is_safe,
                  miss,
                  admitted,
                  lookup-insert_self s.tool_executions (key_of c) row,
                  same,
                )
                refl)
        ]
        | inr broken ↦ refused database_error (
            rw (h.named, h.classed, h.parsed, h.input_is_safe, h.output_is_safe, miss, broken) refl)
      ]

  recorded-admissible :
      (c : Recording P) (t : ToolState) (s : Database P)
      → IsAdmissible c t
      → Kept c s (recorded c s)
  recorded-admissible c t s h = elim (Option-cases (lookup (key_of c) s.tool_executions)) [
    | inl miss ↦ recorded-new c t s h miss
    | inr (row, hit) ↦ known t row h hit (recorded-known c t row s h hit)
  ]

  pub recorded-Kept : (c : Recording P) (s : Database P) → Kept c s (recorded c s)
  unfolding recorded record_tool_execution keep_tool
  recorded-Kept c s = elim (Bool-cases (has_empty_name c)) [
    | inl missing ↦ refused identity_missing (rw missing refl)
    | inr named ↦ elim (Bool-cases (is_effect_class c.effect_class)) [
      | inr other ↦ refused invalid_effect_class (rw (named, other) refl)
      | inl classed ↦ elim (Option-cases (tool_state c.state)) [
        | inl unknown ↦ refused invalid_tool_state (rw (named, classed, unknown) refl)
        | inr (t, parsed) ↦ elim (Bool-cases (host.json_safe c.input_payload)) [
          | inr unsafe ↦ refused payload_not_json_safe (rw (named, classed, parsed, unsafe) refl)
          | inl safe ↦ elim (Bool-cases (output_safe host c.output)) [
            | inr bad ↦ refused payload_not_json_safe (rw (named, classed, parsed, safe, bad) refl)
            | inl out ↦ recorded-admissible c t s (record {
              named = named;
              classed = classed;
              parsed = parsed;
              input_is_safe = safe;
              output_is_safe = out;
            })
          ]
        ]
      ]
    ]
  ]

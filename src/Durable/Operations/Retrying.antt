-- ===== src/Durable/Operations/Retrying.antt =====
-- `record_tool_execution` of packages/platform/src/vda_platform/jobs/repository.py over any sequence
-- of calls: an operation key stands for one execution.
use grok_bot_data.Prelude.{
  String, sym, ap, ok_injective, ◌∙◌, ◌≢◌, Option, List, arith, refl, inl, inr, true, false, some,
  [], Bool-cases, ok, err, string_eq, pair_eq, option_eq, nat_eq, ◌≡◌, ◌∷◌, Result,
}
use grok_bot_data.Prelude.Dict.{lookup, lookup-insert_self, lookup-insert_ne, key_differs}
use grok_bot_data.Durable.Tables.{
  Database, Host, RepositoryError, ToolRow, ToolState, tool_key_reused,
}
use grok_bot_data.Durable.Operations.{ToolExecutionRecord, input_differs, output_safe, tool_state}
use grok_bot_data.Durable.Operations.Tools.{tool_record}
use grok_bot_data.Durable.Operations.Recordings.{
  Recording, row_of, key_of, recorded, record_steps, IsAdmissible, Kept, refused, known, added,
  recorded-known, recorded-Kept,
}

-- Two recordings differ in their run, attempt, tool, version or effect class.
pub data Differs {P : Type 0} (c d : Recording P) : Type 0 where
  other_run : c.run_id ≢ d.run_id → Differs c d
  other_attempt : c.attempt_id ≢ d.attempt_id → Differs c d
  other_tool : c.tool_id ≢ d.tool_id → Differs c d
  other_version : c.tool_version ≢ d.tool_version → Differs c d
  other_class : c.effect_class ≢ d.effect_class → Differs c d

module _ {P : Type 0} (host : Host P) where
  Kept-lookup :
      (c : Recording P) (s : Database P)
      (reply : Result RepositoryError (ToolExecutionRecord P) × Database P) (key : String × String)
      (row : ToolRow P)
      → Kept host c s reply
      → lookup key s.tool_executions ≡ some row
      → lookup key reply.1.tool_executions ≡ some row
  Kept-lookup c s reply key row (refused e same) hit =
      ap (λ x. lookup key x.1.tool_executions) same ∙ hit
  Kept-lookup c s reply key row (known t found h there same) hit =
      ap (λ x. lookup key x.1.tool_executions) same ∙ hit
  Kept-lookup c s reply key row (added t h miss own same) hit =
      ap (λ x. lookup key x.1.tool_executions) same
      ∙ lookup-insert_ne s.tool_executions (key_of c) key (row_of c t)
          (key_differs s.tool_executions (key_of c) key row miss hit)
      ∙ hit

  -- No recording changes an execution that is there.
  record_steps-lookup :
      (others : List (Recording P)) (s : Database P) (key : String × String) (row : ToolRow P)
      → lookup key s.tool_executions ≡ some row
      → lookup key (record_steps host others s).tool_executions ≡ some row
  unfolding record_steps
  record_steps-lookup [] s key row hit = hit
  record_steps-lookup (c ∷ rest) s key row hit =
      record_steps-lookup rest (recorded host c s).1 key row
        (Kept-lookup c s (recorded host c s) key row (recorded-Kept host c s) hit)

  -- The execution behind a recording that returned.
  record IsStored (c : Recording P) (s : Database P) (r : ToolExecutionRecord P) : Type 0 where
    state : ToolState
    row : ToolRow P
    admissible : IsAdmissible host c state
    stored : lookup (key_of c) s.tool_executions ≡ some row
    same_input : input_differs host row (row_of c state) ≡ false
    returned : r ≡ tool_record row

  Kept-IsStored :
      (c : Recording P) (s s' : Database P) (r : ToolExecutionRecord P)
      (reply : Result RepositoryError (ToolExecutionRecord P) × Database P)
      → Kept host c s reply
      → reply ≡ (ok r, s')
      → IsStored c s' r
  Kept-IsStored c s s' r reply (refused e same) returns = absurd (no_error same returns)
    where
      no_error : reply ≡ (err e, s) → reply ≡ (ok r, s') → ⊥
      no_error h k = cc
  Kept-IsStored c s s' r reply (known t row h hit same) returns =
      elim (Bool-cases (input_differs host row (row_of c t))) [
        | inl differs ↦ absurd (no_error (rw differs at same) returns)
        | inr alike ↦
            let run = sym returns ∙ rw alike at same in
            record {
              state = t;
              row = row;
              admissible = h;
              stored = ap (λ x. lookup (key_of c) x.1.tool_executions) run ∙ hit;
              same_input = alike;
              returned = ok_injective (ap (λ x. x.0) run);
            }
      ]
    where
      no_error : reply ≡ (err tool_key_reused, s) → reply ≡ (ok r, s') → ⊥
      no_error h k = cc
  Kept-IsStored c s s' r reply (added t h miss alike same) returns =
      let run = sym returns ∙ same in
      record {
        state = t;
        row = row_of c t;
        admissible = h;
        stored =
            ap (λ x. lookup (key_of c) x.1.tool_executions) run
            ∙ lookup-insert_self s.tool_executions (key_of c) (row_of c t);
        same_input = alike;
        returned = ok_injective (ap (λ x. x.0) run);
      }

  -- Once a recording has returned an execution, then after any recordings, those that raise
  -- included, the same call, with whatever id it draws and with whatever state and output the method
  -- takes, returns that execution, with its first id, state and output, and leaves the database as
  -- it is.
  pub record_tool_execution-retry :
      (c : Recording P) (others : List (Recording P)) (s s' : Database P)
      (r : ToolExecutionRecord P) (execution_id state : String) (output : Option P) (t : ToolState)
      → recorded host c s ≡ (ok r, s')
      → tool_state state ≡ some t
      → output_safe host output ≡ true
      → recorded host
          (record c { execution_id = execution_id; state = state; output = output })
          (record_steps host others s')
        ≡ (ok r, record_steps host others s')
  record_tool_execution-retry c others s s' r execution_id state output t returns parsed safe =
      let first = Kept-IsStored c s s' r (recorded host c s) (recorded-Kept host c s) returns in
      let again : Recording P = record c {
        execution_id = execution_id;
        state = state;
        output = output;
      } in
      recorded-known host again t first.row (record_steps host others s')
        (record {
          named = first.admissible.named;
          classed = first.admissible.classed;
          parsed = parsed;
          input_is_safe = first.admissible.input_is_safe;
          output_is_safe = safe;
        })
        (record_steps-lookup others s' (key_of c) first.row first.stored)
      ∙ rw first.same_input (ap (λ x. (ok x, record_steps host others s')) (sym first.returned))

  Differs-input_differs :
      (c d : Recording P) (t u : ToolState) (row : ToolRow P)
      → Differs c d
      → input_differs host row (row_of c t) ≡ false
      → input_differs host row (row_of d u) ≡ true
  Differs-input_differs c d t u row (other_run h) alike =
      ground (arith, string_eq.test_iff row.run_id c.run_id, string_eq.test_iff row.run_id d.run_id)
  Differs-input_differs c d t u row (other_attempt h) alike = ground (
    arith,
    string_eq.test_iff row.attempt_id c.attempt_id,
    string_eq.test_iff row.attempt_id d.attempt_id,
  )
  Differs-input_differs c d t u row (other_tool h) alike =
      ground
        (arith, string_eq.test_iff row.tool_id c.tool_id, string_eq.test_iff row.tool_id d.tool_id)
  Differs-input_differs c d t u row (other_version h) alike = ground (
    arith,
    string_eq.test_iff row.tool_version c.tool_version,
    string_eq.test_iff row.tool_version d.tool_version,
  )
  Differs-input_differs c d t u row (other_class h) alike = ground (
    arith,
    string_eq.test_iff row.effect_class c.effect_class,
    string_eq.test_iff row.effect_class d.effect_class,
  )

  -- Once a recording has returned, then after any recordings, those that raise included, a call of
  -- the same workspace and operation key with arguments that the method takes, but with another run,
  -- attempt, tool, version or effect class, raises the error of a reused key and leaves the database
  -- as it is.
  pub record_tool_execution-reused :
      (c d : Recording P) (others : List (Recording P)) (s s' : Database P)
      (r : ToolExecutionRecord P) (u : ToolState)
      → recorded host c s ≡ (ok r, s')
      → key_of d ≡ key_of c
      → Differs c d
      → IsAdmissible host d u
      → recorded host d (record_steps host others s')
        ≡ (err tool_key_reused, record_steps host others s')
  record_tool_execution-reused c d others s s' r u returns same differs admissible =
      let first = Kept-IsStored c s s' r (recorded host c s) (recorded-Kept host c s) returns in
      recorded-known host d u first.row (record_steps host others s') admissible (
        ap (λ k. lookup k (record_steps host others s').tool_executions) same
        ∙ record_steps-lookup others s' (key_of c) first.row first.stored)
      ∙ rw (Differs-input_differs c d first.state u first.row differs first.same_input) refl

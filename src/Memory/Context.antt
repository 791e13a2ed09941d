-- ===== src/Memory/Context.antt =====
-- packages/platform/src/vda_platform/memory/context.py: `build_context`.
-- The number of bytes of a text in UTF-8 is the parameter `utf8_length`.
pub mod Budget
use grok_bot_data.Prelude.{
  ℕ, max, String, Bool, true, false, not, Option, none, some, List, [], map, ltb, Result, ok, err,
  filter, get_or, ◌+◌, ◌-◌, ◌/◌, ◌&&◌, ◌||◌, ◌∷◌, ◌++◌, ◌==◌, if◌then◌else◌, string_eq, pair_eq,
  nat_eq, option_eq,
}

-- `ContextOverflow` with one constructor for each message
pub data ContextOverflow : Type 0 where
  component_overflow total_overflow : ContextOverflow

pub data Audience : Type 0 where
  conversation workspace private : Audience

pub record ContextBudget : Type 0 where
  pub system : ℕ
  pub tools : ℕ
  pub history : ℕ
  pub memory : ℕ
  pub results : ℕ
  pub output : ℕ
  pub margin : ℕ

abbrev pub default_budget : ContextBudget
default_budget = record {
  system = 2000;
  tools = 4000;
  history = 8000;
  memory = 4000;
  results = 4000;
  output = 2000;
  margin = 2000;
}

-- `ContextBudget.total`
unfoldable pub total : ContextBudget → ℕ
total b = b.system + b.tools + b.history + b.memory + b.results + b.output + b.margin

pub record MemoryRecord : Type 0 where
  pub record_id : String
  pub conversation_id : String
  pub owner_bot_id : String
  pub content : String
  pub revision : ℕ
  pub audience : Audience
  pub source_refs : List String
  pub generation : ℕ

-- the strings `kind`
pub data ItemKind : Type 0 where
  system_item tools_item history_item memory_item result_item : ItemKind

pub record ContextItem : Type 0 where
  pub kind : ItemKind
  pub content : String
  pub source_ref : Option String

pub record BuiltContext : Type 0 where
  pub items : List ContextItem
  pub used_tokens : ℕ
  pub budget : ContextBudget
  pub summary_generation : ℕ
  pub memory_revisions : List ℕ

abbrev pub kind_eq : ItemKind → ItemKind → Bool
kind_eq system_item system_item = true
kind_eq tools_item tools_item = true
kind_eq history_item history_item = true
kind_eq memory_item memory_item = true
kind_eq result_item result_item = true
kind_eq _ _ = false

abbrev pub is_workspace : Audience → Bool
is_workspace workspace = true
is_workspace _ = false

abbrev pub is_private : Audience → Bool
is_private private = true
is_private _ = false

-- the `if` of the list `visible`
unfoldable pub is_visible : String → String → MemoryRecord → Bool
is_visible conversation_id bot_id memory =
    memory.owner_bot_id == bot_id
    && (memory.conversation_id == conversation_id || is_workspace memory.audience)
    && (not (is_private memory.audience) || memory.conversation_id == conversation_id)

abbrev pub plain : ItemKind → String → ContextItem
plain kind content = record { kind = kind; content = content; source_ref = none }

abbrev pub memory_of : MemoryRecord → ContextItem
memory_of memory = record {
  kind = memory_item;
  content = memory.content;
  source_ref = some memory.record_id;
}

-- `items`, from the list `visible`
unfoldable pub items_of :
    String → List String → List String → List MemoryRecord → List String → List ContextItem
items_of system tool_descriptions history visible results =
    plain system_item system
    ∷ (map (plain tools_item) tool_descriptions
        ++ map (plain history_item) history
        ++ map memory_of visible
        ++ map (plain result_item) results)

module _ (utf8_length : String → ℕ) where
  -- `estimate_tokens`
  unfoldable pub estimate_tokens : String → ℕ
  estimate_tokens text = max 1 ((utf8_length text + 3) / 4)

  -- an entry of `totals`
  unfoldable pub total_of : ItemKind → List ContextItem → ℕ
  total_of kind [] = 0
  total_of kind (item ∷ rest) =
      (if kind_eq item.kind kind then estimate_tokens item.content else 0) + total_of kind rest

  -- whether the list `over` has an element
  unfoldable pub is_over : ContextBudget → List ContextItem → Bool
  unfolding total_of
  is_over budget items =
      ltb budget.system (total_of system_item items)
      || ltb budget.tools (total_of tools_item items)
      || ltb budget.history (total_of history_item items)
      || ltb budget.memory (total_of memory_item items)
      || ltb budget.results (total_of result_item items)

  -- `used`
  unfoldable pub used : List ContextItem → ℕ
  unfolding total_of
  used items =
      total_of system_item items
      + total_of tools_item items
      + total_of history_item items
      + total_of memory_item items
      + total_of result_item items

  -- the checks and the result of `build_context`
  unfoldable pub check_budget :
      ContextBudget → ℕ → List ContextItem → List ℕ → Result ContextOverflow BuiltContext
  unfolding is_over used total
  check_budget budget summary_generation items revisions =
      if is_over budget items
      then err component_overflow
      else if ltb (total budget - budget.output - budget.margin) (used items)
      then err total_overflow
      else ok (record {
        items = items;
        used_tokens = used items;
        budget = budget;
        summary_generation = summary_generation;
        memory_revisions = revisions;
      })

  -- `build_context`
  unfoldable pub build_context :
      String
      → String
      → String
      → List String
      → List String
      → List MemoryRecord
      → List String
      → Option ContextBudget
      → ℕ
      → Result ContextOverflow BuiltContext
  unfolding check_budget items_of is_visible
  build_context conversation_id bot_id system tool_descriptions history memories results budget
        summary_generation =
      let visible = filter (is_visible conversation_id bot_id) memories in
      check_budget (get_or default_budget budget) summary_generation
        (items_of system tool_descriptions history visible results)
        (map (λ memory. memory.revision) visible)

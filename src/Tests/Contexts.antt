-- ===== src/Tests/Contexts.antt =====
-- The theorems on built contexts at small ones. Every text counts as four bytes.
use mathlib.Core.Bool.{true≢false}
use grok_bot_data.Prelude.{
  ℕ, String, refl, sym, false, none, List, [], ok, err, string_eq, ◌≡◌, ◌≢◌, ◌∷◌, ◌∙◌, ◌==◌,
  if◌then◌else◌, pair_eq, nat_eq, option_eq,
}
use grok_bot_data.Memory.Context.{
  ContextItem, MemoryRecord, private, default_budget, plain, system_item, tools_item,
  component_overflow, is_over, used, check_budget, build_context,
}
use grok_bot_data.Memory.Context.Budget.{private_memory_hidden, check_budget_total}

abbrev four_bytes : String → ℕ
four_bytes text = 4

abbrev diary : MemoryRecord
diary = record {
  record_id = "m1";
  conversation_id = "other";
  owner_bot_id = "analyst";
  content = "secret";
  revision = 3;
  audience = private;
  source_refs = [];
  generation = 0;
}

differs : (a b : String) → (a == b) ≡ false → a ≢ b
differs a b other h = true≢false (sym ((string_eq.test_iff a b).1 h) ∙ other)

private_memory_hidden_example :
    build_context four_bytes "talk" "analyst" "be kind" [] [] (diary ∷ []) [] none 0
    ≡ build_context four_bytes "talk" "analyst" "be kind" [] [] [] [] none 0
private_memory_hidden_example =
    private_memory_hidden four_bytes "talk" "analyst" "be kind" [] [] [] [] diary [] none 0 refl
      (differs "other" "talk" refl)

abbrev two_items : List ContextItem
two_items = plain system_item "be kind" ∷ plain tools_item "count" ∷ []

check_budget_total_example : check_budget four_bytes default_budget 0 two_items [] ≡ (
    if is_over four_bytes default_budget two_items
    then err component_overflow
    else ok (record {
      items = two_items;
      used_tokens = used four_bytes two_items;
      budget = default_budget;
      summary_generation = 0;
      memory_revisions = [];
    }))
check_budget_total_example = check_budget_total four_bytes default_budget two_items 0 []

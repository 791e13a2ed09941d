-- ===== src/Memory/Context/Budget.antt =====
-- The budget of a context, and what stays out of it (memory/context.py).
use grok_bot_data.Prelude.{
  ℕ, String, refl, inl, inr, Bool, true, false, not, Option, List, [], arith, ltb, Bool-cases,
  beq_ne, ok, err, filter, ◌-◌, ◌≤◌, ◌≡◌, ◌≢◌, ◌&&◌, ◌||◌, ◌∷◌, ◌++◌, ◌==◌, if◌then◌else◌,
  string_eq, pair_eq, nat_eq, option_eq,
}
use grok_bot_data.Memory.Context.{
  ContextBudget, ContextItem, MemoryRecord, private, component_overflow, total, used, is_over,
  is_visible, check_budget, build_context,
}

-- A list without an element that a filter drops.
filter-drop :
    {A : Type 0} (p : A → Bool) (xs ys : List A) (x : A)
    → p x ≡ false
    → filter p (xs ++ x ∷ ys) ≡ filter p (xs ++ ys)
filter-drop p [] ys x h = rw h refl
filter-drop p (y ∷ xs) ys x h = rw (filter-drop p xs ys x h) refl

secret_elsewhere :
    (conversation_id bot_id : String) (memory : MemoryRecord)
    → memory.audience ≡ private
    → memory.conversation_id ≢ conversation_id
    → is_visible conversation_id bot_id memory ≡ false
unfolding is_visible
secret_elsewhere conversation_id bot_id memory secret elsewhere =
    rw (secret, beq_ne memory.conversation_id conversation_id elsewhere)
      (none_of (memory.owner_bot_id == bot_id))
  where
    none_of : (b : Bool) → (b && (false || false) && (not true || false)) ≡ false
    none_of true = refl
    none_of false = refl

-- A private memory of another conversation makes no difference to a context, wherever it stands
-- among the memories: the same context is built, or the same overflow raised, as without it.
pub private_memory_hidden :
    (utf8_length : String → ℕ) (conversation_id bot_id system : String)
    (tools history : List String) (before after : List MemoryRecord) (memory : MemoryRecord)
    (results : List String) (budget : Option ContextBudget) (generation : ℕ)
    → memory.audience ≡ private
    → memory.conversation_id ≢ conversation_id
    → build_context utf8_length conversation_id bot_id system tools history
        (before ++ memory ∷ after)
        results
        budget
        generation
      ≡ build_context utf8_length conversation_id bot_id system tools history
          (before ++ after)
          results
          budget
          generation
unfolding build_context is_visible
private_memory_hidden utf8_length conversation_id bot_id system tools history before after memory
      results budget generation secret elsewhere =
    rw
      (filter-drop (is_visible conversation_id bot_id) before after memory
        (secret_elsewhere conversation_id bot_id memory secret elsewhere))
      refl

not_ltb : (a b : ℕ) → b ≤ a → ltb a b ≡ false
not_ltb a b h = ground (arith, h)

module _ (utf8_length : String → ℕ) (budget : ContextBudget) (items : List ContextItem) where
  within_total :
      is_over utf8_length budget items ≡ false
      → used utf8_length items ≤ total budget - budget.output - budget.margin
  unfolding is_over used total
  within_total h = ground (arith, h)

  -- Whatever the items, the checks build a context exactly when every kind of items is within its
  -- own limit; the second overflow, of the total, is never raised.
  pub check_budget_total :
      (generation : ℕ) (revisions : List ℕ)
      → check_budget utf8_length budget generation items revisions ≡ (
          if is_over utf8_length budget items
          then err component_overflow
          else ok (record {
            items = items;
            used_tokens = used utf8_length items;
            budget = budget;
            summary_generation = generation;
            memory_revisions = revisions;
          }))
  unfolding check_budget
  check_budget_total generation revisions = elim (Bool-cases (is_over utf8_length budget items)) [
    | inl over ↦ rw over refl
    | inr fits ↦ rw (fits, not_ltb _ _ (within_total fits)) refl
  ]

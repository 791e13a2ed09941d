-- ===== src/Durable/Operations/Settling.antt =====
-- What each method on effects of packages/platform/src/vda_platform/jobs/repository.py does to the
-- table, and what any sequence of them does.
use grok_bot_data.Prelude.{
  String, refl, sym, ap, ok_injective, ◌∙◌, inl, inr, true, false, any, ◌==◌, none, some, List, [],
  arith, Bool-cases, Option-cases, ok, string_eq, pair_eq, option_eq, nat_eq, ◌≡◌, ◌⊎◌, ◌∷◌,
}
use grok_bot_data.Prelude.Dict.{lookup, insert, lookup-insert_self}
use grok_bot_data.Prelude.Equality.{option_beq_iff}
use grok_bot_data.Durable.Tables.{Database, EffectRow, EffectState}
use grok_bot_data.Durable.Operations.{
  EffectRecord, effect_record, is_reconciled, is_reserved, is_unknown, mark_effect_unknown,
  reconcile_effect, reserve_effect, update_effect, update_found, write_effect,
}
use grok_bot_data.Durable.Operations.Effects.{
  EffectCall, reserve_call, unknown_call, reconcile_call, effect_step, effect_steps, Moves,
  Moves-reconciled, marked, settled, no_calls, move_then, EffectChange-Move, EffectChange,
  same_effects, added_effect, update_effect-EffectChange, along, reserved_row, reconciled_row,
}

is_reconciled_iff : (t : EffectState) → is_reconciled t ≡ true → t ≡ EffectState.reconciled
is_reconciled_iff t h = ground arith

module _ {P : Type 0} where
  reserve_effect-known :
      (effect_id workspace_id run_id attempt_id operation_key : String) (s : Database P)
      (a : EffectRow)
      → lookup (workspace_id, operation_key) s.effects ≡ some a
      → (reserve_effect effect_id workspace_id run_id attempt_id operation_key s).1.effects
        ≡ s.effects
  unfolding reserve_effect write_effect
  reserve_effect-known effect_id workspace_id run_id attempt_id operation_key s a hit = ground arith

  reserve_effect-fresh :
      (effect_id workspace_id run_id attempt_id operation_key : String) (s : Database P)
      → lookup (workspace_id, operation_key) s.effects ≡ none
      → ((reserve_effect effect_id workspace_id run_id attempt_id operation_key s).1.effects
          ≡ s.effects)
        ⊎ ((reserve_effect effect_id workspace_id run_id attempt_id operation_key s).1.effects
            ≡ insert
                (workspace_id, operation_key)
                (reserved_row effect_id run_id attempt_id operation_key)
                s.effects)
  unfolding reserve_effect write_effect
  reserve_effect-fresh effect_id workspace_id run_id attempt_id operation_key s miss = ground arith

  -- The tables that a change of the effects may leave.
  mark_effect_unknown-either :
      (workspace_id operation_key : String) (s : Database P)
      → ((mark_effect_unknown workspace_id operation_key s).1.effects ≡ s.effects)
        ⊎ ((mark_effect_unknown workspace_id operation_key s).1.effects
            ≡ update_found
                (workspace_id, operation_key)
                (λ row. is_reserved row.state)
                (λ row. record row { state = EffectState.unknown })
                (lookup (workspace_id, operation_key) s.effects)
                s.effects)
  unfolding mark_effect_unknown update_effect
  mark_effect_unknown-either workspace_id operation_key s = ground arith

  reconcile_effect-either :
      (workspace_id operation_key result_ref : String) (s : Database P)
      → ((reconcile_effect workspace_id operation_key result_ref s).1.effects ≡ s.effects)
        ⊎ ((reconcile_effect workspace_id operation_key result_ref s).1.effects
            ≡ update_found
                (workspace_id, operation_key)
                (λ row. is_unknown row.state)
                (λ row. record row { state = EffectState.reconciled; result_ref = some result_ref })
                (lookup (workspace_id, operation_key) s.effects)
                s.effects)
  unfolding reconcile_effect update_effect
  reconcile_effect-either workspace_id operation_key result_ref s = ground arith

  effect_step-EffectChange :
      (call : EffectCall) (s : Database P)
      → EffectChange call s.effects (effect_step call s).effects
  unfolding effect_step
  effect_step-EffectChange (reserve_call effect_id workspace_id run_id attempt_id key) s =
      elim (Option-cases (lookup (workspace_id, key) s.effects)) [
        | inl miss ↦
            elim (reserve_effect-fresh effect_id workspace_id run_id attempt_id key s miss) [
              | inl kept ↦ same_effects kept
              | inr added ↦
                  added_effect (workspace_id, key) (reserved_row effect_id run_id attempt_id key)
                    miss added
            ]
        | inr (a, hit) ↦
            same_effects (reserve_effect-known effect_id workspace_id run_id attempt_id key s a hit)
      ]
  effect_step-EffectChange (unknown_call workspace_id key) s =
      elim (mark_effect_unknown-either workspace_id key s) [
        | inl kept ↦ same_effects kept
        | inr changed ↦ along changed (
            update_effect-EffectChange (unknown_call workspace_id key) (workspace_id, key) _ _
              s.effects (λ a h. marked a h))
      ]
  effect_step-EffectChange (reconcile_call workspace_id key result_ref) s =
      elim (reconcile_effect-either workspace_id key result_ref s) [
        | inl kept ↦ same_effects kept
        | inr changed ↦ along changed (
            update_effect-EffectChange (reconcile_call workspace_id key result_ref)
              (workspace_id, key) _ _ s.effects (λ a h. settled a result_ref h))
      ]

  -- Over any sequence of reservations, marks and reconciliations, those that raise included, an
  -- effect that is there stays there, and each call leaves it as it is or makes one move, which
  -- changes its state and result alone: a mark of its own key from reserved to unknown, or a
  -- reconciliation of its own key from unknown to reconciled, with the result of that call. So a
  -- reserved effect is never reconciled directly.
  pub effect_steps-Moves :
      (calls : List EffectCall) (s : Database P) (key : String × String) (a : EffectRow)
      → lookup key s.effects ≡ some a
      → (b : EffectRow) × (lookup key (effect_steps calls s).effects ≡ some b) × Moves key calls a b
  unfolding effect_steps
  effect_steps-Moves [] s key a hit = (a, hit, no_calls a)
  effect_steps-Moves (call ∷ rest) s key a hit =
      let (b, there, first) =
        EffectChange-Move call s.effects _ key a (effect_step-EffectChange call s) hit in
      let (c, later, more) = effect_steps-Moves rest (effect_step call s) key b there in
      (c, later, move_then call rest a b c first more)

  -- Once an effect is reconciled, no sequence of reservations, marks and reconciliations, those that
  -- raise included, changes its row, the result included.
  pub effect_steps-reconciled :
      (calls : List EffectCall) (s : Database P) (key : String × String) (a : EffectRow)
      → lookup key s.effects ≡ some a
      → is_reconciled a.state ≡ true
      → lookup key (effect_steps calls s).effects ≡ some a
  effect_steps-reconciled calls s key a hit done =
      let (b, there, moves) = effect_steps-Moves calls s key a hit in
      there ∙ ap some (Moves-reconciled key calls a b done moves)

  reconcile_effect-unknown :
      (workspace_id operation_key result_ref : String) (s : Database P) (a : EffectRow)
      → any (λ name. name == "") (workspace_id ∷ operation_key ∷ result_ref ∷ []) ≡ false
      → lookup (workspace_id, operation_key) s.effects ≡ some a
      → is_unknown a.state ≡ true
      → reconcile_effect workspace_id operation_key result_ref s ≡ (
        ok (effect_record (reconciled_row a result_ref)),
        record s {
          effects = insert (workspace_id, operation_key) (reconciled_row a result_ref) s.effects;
        },
      )
  unfolding reconcile_effect update_effect
  reconcile_effect-unknown workspace_id operation_key result_ref s a names hit lost =
      rw
        (
          names,
          hit,
          lost,
          lookup-insert_self s.effects (workspace_id, operation_key) (reconciled_row a result_ref),
          (string_eq.test_iff result_ref result_ref).1 refl,
        )
        refl

  reconcile_effect-kept :
      (workspace_id operation_key result_ref : String) (s s' : Database P) (a : EffectRow)
      (r : EffectRecord)
      → lookup (workspace_id, operation_key) s.effects ≡ some a
      → is_unknown a.state ≡ false
      → reconcile_effect workspace_id operation_key result_ref s ≡ (ok r, s')
      → (a ≡ reconciled_row a result_ref) × (s'.effects ≡ s.effects) × (r ≡ effect_record a)
  unfolding reconcile_effect update_effect
  reconcile_effect-kept workspace_id operation_key result_ref s s' a r hit other e = (
    λ i. record a {
      state = is_reconciled_iff a.state done i;
      result_ref = (option_beq_iff string_eq a.result_ref (some result_ref)).0 same i;
    },
    ground arith,
    ground arith,
  )
    where
      done : is_reconciled a.state ≡ true
      done = ground arith

      same : (a.result_ref == some result_ref) ≡ true
      same = ground arith

  -- A reconciliation that returns was of an effect that was unknown, or that was reconciled with the
  -- same result before; and afterwards that effect is reconciled with that result, its id, run,
  -- attempt and key as before, which is what the call returns. So a reserved effect is never
  -- reconciled directly, and a different result is refused.
  pub reconcile_effect-returned :
      (workspace_id operation_key result_ref : String) (s s' : Database P) (r : EffectRecord)
      → reconcile_effect workspace_id operation_key result_ref s ≡ (ok r, s')
      → (a : EffectRow) × (lookup (workspace_id, operation_key) s.effects ≡ some a)
        × ((is_unknown a.state ≡ true)
            ⊎ ((is_reconciled a.state ≡ true) × (a.result_ref ≡ some result_ref)))
        × (lookup (workspace_id, operation_key) s'.effects ≡ some (reconciled_row a result_ref))
        × (r ≡ effect_record (reconciled_row a result_ref))
  unfolding reconcile_effect update_effect
  reconcile_effect-returned workspace_id operation_key result_ref s s' r e =
      elim (Option-cases (lookup (workspace_id, operation_key) s.effects)) [
        | inl miss ↦ absurd (ground arith)
        | inr (a, hit) ↦ elim (Bool-cases (is_unknown a.state)) [
          | inl lost ↦
              elim (Bool-cases
                (any (λ name. name == "") (workspace_id ∷ operation_key ∷ result_ref ∷ []))) [
                  | inl missing ↦ absurd (ground arith)
                  | inr names ↦
                      let run =
                        sym (
                          reconcile_effect-unknown workspace_id operation_key result_ref s a names
                            hit lost)
                        ∙ e in
                      (
                        a,
                        hit,
                        inl lost,
                        ap (λ d. lookup (workspace_id, operation_key) d.effects)
                              (sym (ap (λ x. x.1) run))
                            ∙ lookup-insert_self s.effects (workspace_id, operation_key)
                                (reconciled_row a result_ref),
                        ok_injective (sym (ap (λ x. x.0) run)),
                      )
                ]
          | inr other ↦
              let (same, kept, returned) =
                reconcile_effect-kept workspace_id operation_key result_ref s s' a r hit other e in
              (
                a,
                hit,
                inr (ap (λ t. is_reconciled t.state) same, ap (λ t. t.result_ref) same),
                ap (λ d. lookup (workspace_id, operation_key) d) kept ∙ hit ∙ ap some same,
                returned ∙ ap effect_record same,
              )
        ]
      ]

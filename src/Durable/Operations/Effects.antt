-- ===== src/Durable/Operations/Effects.antt =====
-- The effects of packages/platform/src/vda_platform/jobs/repository.py: what their methods do to the
-- table, over any sequence of calls.
use grok_bot_data.Prelude.{
  String, refl, sym, ap, subst, inl, inr, Bool, true, none, some, List, [], arith, Bool-cases,
  Option-cases, some_injective, string_eq, pair_eq, option_eq, nat_eq, ◌≡◌, ◌∷◌, ◌∙◌, ◌==◌,
}
use grok_bot_data.Prelude.Equality.{pair_beq_iff}
use grok_bot_data.Prelude.Dict.{
  Dict, lookup, insert, key_differs, lookup-insert_self, lookup-insert_ne, lookup_same,
}
use grok_bot_data.Durable.Tables.{Database, EffectRow, EffectState}
use grok_bot_data.Durable.Operations.{
  is_reconciled, is_reserved, is_unknown, mark_effect_unknown, reconcile_effect, reserve_effect,
  update_found,
}

-- the methods on effects
pub data EffectCall : Type 0 where
  reserve_call : String → String → String → String → String → EffectCall
  unknown_call : String → String → EffectCall
  reconcile_call : String → String → String → EffectCall

module _ {P : Type 0} where
  -- the database after the call, whether it raised or not
  unfoldable pub effect_step : EffectCall → Database P → Database P
  effect_step (reserve_call effect_id workspace_id run_id attempt_id operation_key) s =
      (reserve_effect effect_id workspace_id run_id attempt_id operation_key s).1
  effect_step (unknown_call workspace_id operation_key) s =
      (mark_effect_unknown workspace_id operation_key s).1
  effect_step (reconcile_call workspace_id operation_key result_ref) s =
      (reconcile_effect workspace_id operation_key result_ref s).1

  unfoldable pub effect_steps : List EffectCall → Database P → Database P
  effect_steps [] s = s
  effect_steps (call ∷ rest) s = effect_steps rest (effect_step call s)

-- the row of an effect once it is reconciled
abbrev pub reconciled_row : EffectRow → String → EffectRow
reconciled_row a result = record a { state = EffectState.reconciled; result_ref = some result }

-- What one call may do to the effect under a key.
pub data Move (key : String × String) : EffectCall → EffectRow → EffectRow → Type 0 where
  kept : (call : EffectCall) (a : EffectRow) → Move key call a a
  -- a reserved effect, by the mark of its own key
  marked :
      (a : EffectRow)
      → is_reserved a.state ≡ true
      → Move key (unknown_call key.0 key.1) a (record a { state = EffectState.unknown })
  -- an unknown effect, by a reconciliation of its own key, with the result of that call
  settled :
      (a : EffectRow) (result : String)
      → is_unknown a.state ≡ true
      → Move key (reconcile_call key.0 key.1 result) a (reconciled_row a result)

-- The moves of a sequence of calls, one for each.
pub data Moves (key : String × String) : List EffectCall → EffectRow → EffectRow → Type 0 where
  no_calls : (a : EffectRow) → Moves key [] a a
  move_then :
      (call : EffectCall) (rest : List EffectCall) (a b c : EffectRow)
      → Move key call a b
      → Moves key rest b c
      → Moves key (call ∷ rest) a c

-- A reconciled effect stays as it is.
Move-reconciled :
    (key : String × String) (call : EffectCall) (a b : EffectRow)
    → is_reconciled a.state ≡ true
    → Move key call a b
    → b ≡ a
Move-reconciled key _ _ _ done (kept call a) = refl
Move-reconciled key _ _ _ done (marked a h) = absurd (not_both a.state h done)
  where
    not_both : (t : EffectState) → is_reserved t ≡ true → is_reconciled t ≡ true → ⊥
    not_both t h k = ground arith
Move-reconciled key _ _ _ done (settled a result h) = absurd (not_both a.state h done)
  where
    not_both : (t : EffectState) → is_unknown t ≡ true → is_reconciled t ≡ true → ⊥
    not_both t h k = ground arith

pub Moves-reconciled :
    (key : String × String) (calls : List EffectCall) (a b : EffectRow)
    → is_reconciled a.state ≡ true
    → Moves key calls a b
    → b ≡ a
Moves-reconciled key _ _ _ done (no_calls a) = refl
Moves-reconciled key _ _ _ done (move_then call rest a b c first more) =
    let same = Move-reconciled key call a b done first in
    Moves-reconciled key rest b c (subst (λ r. is_reconciled r.state ≡ true) (sym same) done) more
    ∙ same

-- The table after a call: as before, with a new key, or with one effect moved.
pub data EffectChange (call : EffectCall) (d d' : Dict (String × String) EffectRow) : Type 0 where
  same_effects : d' ≡ d → EffectChange call d d'
  added_effect :
      (key : String × String) (b : EffectRow)
      → lookup key d ≡ none
      → d' ≡ insert key b d
      → EffectChange call d d'
  changed_effect :
      (key : String × String) (a b : EffectRow)
      → lookup key d ≡ some a
      → Move key call a b
      → d' ≡ insert key b d
      → EffectChange call d d'

pub EffectChange-Move :
    (call : EffectCall) (d d' : Dict (String × String) EffectRow) (key : String × String)
    (a : EffectRow)
    → EffectChange call d d'
    → lookup key d ≡ some a
    → (b : EffectRow) × (lookup key d' ≡ some b) × Move key call a b
EffectChange-Move call d d' key a (same_effects same) hit =
    (a, ap (λ t. lookup key t) same ∙ hit, kept call a)
EffectChange-Move call d d' key a (added_effect j b miss write) hit = (
  a,
  ap (λ t. lookup key t) write ∙ lookup-insert_ne d j key b (key_differs d j key a miss hit) ∙ hit,
  kept call a,
)
EffectChange-Move call d d' key a (changed_effect j c b found move write) hit =
    elim (Bool-cases (j == key)) [
      | inl here ↦ (
        b,
        ap (λ t. lookup key t) write
            ∙ sym (lookup_same (insert j b d) j key here)
            ∙ lookup-insert_self d j b,
        subst (λ k. Move k call a b) ((pair_beq_iff string_eq string_eq j key).0 here)
            (subst (λ r. Move j call r b)
              (some_injective (sym found ∙ lookup_same d j key here ∙ hit)) move),
      )
      | inr there ↦
          (a, ap (λ t. lookup key t) write ∙ lookup-insert_ne d j key b there ∙ hit, kept call a)
    ]

abbrev pub reserved_row : String → String → String → String → EffectRow
reserved_row effect_id run_id attempt_id operation_key = record {
  id = effect_id;
  run_id = run_id;
  attempt_id = attempt_id;
  operation_key = operation_key;
  state = EffectState.reserved;
  result_ref = none;
}

pub update_effect-EffectChange :
    (call : EffectCall) (key : String × String) (test : EffectRow → Bool)
    (change : EffectRow → EffectRow) (d : Dict (String × String) EffectRow)
    → ((a : EffectRow) → test a ≡ true → Move key call a (change a))
    → EffectChange call d (update_found key test change (lookup key d) d)
update_effect-EffectChange call key test change d moves = elim (Option-cases (lookup key d)) [
  | inl miss ↦ rw miss (same_effects refl)
  | inr (a, hit) ↦ elim (Bool-cases (test a)) [
    | inl passed ↦ rw (hit, passed) (changed_effect key a (change a) hit (moves a passed) refl)
    | inr failed ↦ rw (hit, failed) (same_effects refl)
  ]
]

pub along :
    {call : EffectCall} {d e e' : Dict (String × String) EffectRow}
    → e ≡ e'
    → EffectChange call d e'
    → EffectChange call d e
along {call = call} {d = d} same h = subst (EffectChange call d) (sym same) h

-- ===== src/Prelude/Table.antt =====
-- A dict whose values know their key: each value stands once, under its own id.
use mathlib.Core.Path.{◌≡◌, refl, sym, ap, ◌∙◌}
use mathlib.Core.Logic.{inl, inr}
use mathlib.Core.Option.{none, some}
use mathlib.Core.List.{[], ◌∷◌}
use native.Mathlib.Omega.{arith}
use Prim.Native.String.{String}
use grok_bot_data.Prelude.Tests.{Bool-cases}
use grok_bot_data.Prelude.Lists.{All, All-mono}
use grok_bot_data.Prelude.Equality.{string_eq, beq_sym, ◌==◌}
use grok_bot_data.Prelude.Dict.{Dict, lookup, insert, values, lookup-insert}

module _ {A : Type 0} (id_of : A → String) where
  abbrev pub Indexed : Dict String A → Type 0
  Indexed [] = Unit
  Indexed ((k, a) ∷ d) = (id_of a ≡ k) × (lookup k d ≡ none) × Indexed d

  pub Indexed-insert :
      (d : Dict String A) (id : String) (a : A) → id_of a ≡ id → Indexed d → Indexed (insert id a d)
  unfolding lookup insert
  Indexed-insert [] id a same h = (same, refl, tt)
  Indexed-insert ((k, b) ∷ d) id a same h = elim (Bool-cases (k == id)) [
    | inl here ↦ rw here (same ∙ sym ((string_eq.test_iff k id).0 here), h.1, h.2)
    | inr there ↦
        rw there (h.0, rw (lookup-insert, beq_sym, there) h.1, Indexed-insert d id a same h.2)
  ]

  -- The value is the one that the dict has under the value's id.
  abbrev pub FoundIn : Dict String A → A → Type 0
  FoundIn d a = lookup (id_of a) d ≡ some a

  pub lookup-id_of :
      (d : Dict String A) (id : String) (a : A) → Indexed d → lookup id d ≡ some a → id_of a ≡ id
  unfolding lookup
  lookup-id_of [] id a h e = cc
  lookup-id_of ((k, b) ∷ d) id a h e = elim (Bool-cases (k == id)) [
    | inl here ↦ ground (arith, string_eq.test_iff k id)
    | inr there ↦ lookup-id_of d id a h.2 (rw there at e)
  ]

  FoundIn-cons :
      (d : Dict String A) (k : String) (b a : A)
      → lookup k d ≡ none
      → FoundIn d a
      → FoundIn ((k, b) ∷ d) a
  unfolding lookup
  FoundIn-cons d k b a fresh found = elim (Bool-cases (k == id_of a)) [
    | inl same ↦ absurd (absent (ap (λ j. lookup j d) ((string_eq.test_iff k (id_of a)).0 same)))
    | inr other ↦ rw other found
  ]
    where
      absent : lookup k d ≡ lookup (id_of a) d → ⊥
      absent same = cc

  -- Every value that an iteration over the dict meets is found under its id.
  pub values-FoundIn : (d : Dict String A) → Indexed d → All (FoundIn d) (values d)
  unfolding lookup
  values-FoundIn [] h = tt
  values-FoundIn ((k, b) ∷ d) h = (
    rw ((string_eq.test_iff k (id_of b)).1 (sym h.0)),
    All-mono (FoundIn d) (FoundIn ((k, b) ∷ d)) (values d)
        (λ a found. FoundIn-cons d k b a h.1 found) (values-FoundIn d h.2),
  )

-- ===== src/Prelude/Outcome.antt =====
-- Methods that touch one entry of a dict: they raise, return the entry, or replace it.
use mathlib.Core.Path.{◌≡◌, refl, sym, ap, subst, ◌∙◌}
use mathlib.Core.Logic.{◌⊎◌, inl, inr}
use mathlib.Core.Option.{some}
use Prim.Native.String.{String}
use grok_bot_data.Prelude.Tests.{Bool-cases, some_injective}
use grok_bot_data.Prelude.Equality.{string_eq, ◌==◌}
use grok_bot_data.Prelude.Dict.{
  Dict, lookup, insert, lookup-insert_self, lookup-insert_ne, lookup_same,
}
use grok_bot_data.Prelude.Effect.{Result, ok, err}

module _ {S E A : Type 0} (entries : S → Dict String A) (R : A → A → Type 0) where
  pub data Outcome (s : S) : Result E A × S → Type 0 where
    refused : (e : E) → Outcome s (err e, s)
    kept : (id : String) (a : A) → lookup id (entries s) ≡ some a → Outcome s (ok a, s)
    moved :
        (id : String) (a b : A) (s' : S)
        → lookup id (entries s) ≡ some a
        → R a b
        → entries s' ≡ insert id b (entries s)
        → Outcome s (ok b, s')

  -- Every entry is still there, as it was or one step further.
  pub Outcome-steps :
      (s : S) (r : Result E A × S) (id : String) (a : A)
      → Outcome s r
      → lookup id (entries s) ≡ some a
      → (b : A) × (lookup id (entries r.1) ≡ some b) × ((b ≡ a) ⊎ R a b)
  Outcome-steps s r id a (refused e) h = (a, h, inl refl)
  Outcome-steps s r id a (kept i c hit) h = (a, h, inl refl)
  Outcome-steps s r id a (moved i c b s' hit step write) h = elim (Bool-cases (i == id)) [
    | inl here ↦ (
      b,
      subst (λ d. lookup id d ≡ some b) (sym write)
          (sym (lookup_same (insert i b (entries s)) i id here)
            ∙ lookup-insert_self (entries s) i b),
      inr (
          subst (λ k. R k b) (some_injective (sym hit ∙ lookup_same (entries s) i id here ∙ h))
            step),
    )
    | inr there ↦ (
      a,
      subst (λ d. lookup id d ≡ some a) (sym write) (lookup-insert_ne (entries s) i id b there ∙ h),
      inl refl,
    )
  ]

  -- An entry that is there afterwards was there before, as it is or a step behind.
  pub Outcome-found :
      (s : S) (r : Result E A × S) (id : String) (b : A)
      → Outcome s r
      → lookup id (entries r.1) ≡ some b
      → (a : A) × (lookup id (entries s) ≡ some a) × ((b ≡ a) ⊎ R a b)
  Outcome-found s r id b (refused e) h = (b, h, inl refl)
  Outcome-found s r id b (kept i c hit) h = (b, h, inl refl)
  Outcome-found s r id b (moved i a c s' hit step write) h = elim (Bool-cases (i == id)) [
    | inl here ↦ (
      a,
      sym (lookup_same (entries s) i id here) ∙ hit,
      inr (
          subst (λ k. R a k)
            (some_injective (
              sym (lookup-insert_self (entries s) i c)
              ∙ lookup_same (insert i c (entries s)) i id here
              ∙ sym (ap (λ d. lookup id d) write)
              ∙ h))
            step),
    )
    | inr there ↦ (
      b,
      sym (lookup-insert_ne (entries s) i id c there) ∙ sym (ap (λ d. lookup id d) write) ∙ h,
      inl refl,
    )
  ]

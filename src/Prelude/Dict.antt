-- ===== src/Prelude/Dict.antt =====
-- Python's `dict`: the entries in insertion order. A write to a key that is there keeps its place.
use mathlib.Core.Path.{◌≡◌, refl, ap}
use mathlib.Core.Logic.{inl, inr}
use mathlib.Core.Bool.{Bool, false, true}
use mathlib.Core.Option.{Option, none, some}
use mathlib.Core.List.{List, [], ◌∷◌}
use native.Mathlib.Omega.{arith}
use grok_bot_data.Prelude.Tests.{Bool-cases, if◌then◌else◌, is_some}
use grok_bot_data.Prelude.Equality.{Eq, ◌==◌, beq_refl}

abbrev pub Dict {ℓ} : Type ℓ → Type ℓ → Type ℓ
Dict K V = List (K × V)

module _ {ℓ} {K V : Type ℓ} ⦃e : Eq K⦄ where
  -- `d.get(k)`
  unfoldable pub lookup : K → Dict K V → Option V
  lookup k [] = none
  lookup k ((j, v) ∷ d) = if j == k then some v else lookup k d

  -- `d[k] = v`
  unfoldable pub insert : K → V → Dict K V → Dict K V
  insert k v [] = (k, v) ∷ []
  insert k v ((j, w) ∷ d) = if j == k then (j, v) ∷ d else (j, w) ∷ insert k v d

  -- `d.pop(k, None)`
  unfoldable pub remove : K → Dict K V → Dict K V
  remove k [] = []
  remove k ((j, w) ∷ d) = let rest = remove k d in if j == k then rest else (j, w) ∷ rest

  -- `k in d`
  abbrev pub contains : K → Dict K V → Bool
  contains k d = is_some (lookup k d)

  pub lookup-insert :
      (k j : K) (v : V) (d : Dict K V)
      → lookup j (insert k v d) ≡ (if k == j then some v else lookup j d)
  unfolding lookup insert
  lookup-insert k j v [] = refl
  lookup-insert k j v ((i, w) ∷ d) =
      ground (arith, lookup-insert k j v d, e.test_iff i k, e.test_iff i j, e.test_iff k j)

  pub lookup-remove :
      (k j : K) (d : Dict K V) → lookup j (remove k d) ≡ (if k == j then none else lookup j d)
  unfolding lookup remove
  lookup-remove k j [] = ground arith
  lookup-remove k j ((i, w) ∷ d) =
      ground (arith, lookup-remove k j d, e.test_iff i k, e.test_iff i j, e.test_iff k j)

-- `d.values()`
abbrev pub values {ℓ} : {K V : Type ℓ} → Dict K V → List V
values [] = []
values ((k, v) ∷ d) = v ∷ values d

module _ {ℓ} {K V : Type ℓ} ⦃e : Eq K⦄ where
  -- A key that misses is none that hits.
  pub key_differs :
      (d : Dict K V) (k j : K) (v : V) → lookup k d ≡ none → lookup j d ≡ some v → (k == j) ≡ false
  key_differs d k j v miss hit = elim (Bool-cases (k == j)) [
    | inl same ↦ cc (miss, hit, ap (λ i. lookup i d) ((e.test_iff k j).0 same))
    | inr other ↦ other
  ]

  pub lookup-insert_self : (d : Dict K V) (k : K) (v : V) → lookup k (insert k v d) ≡ some v
  lookup-insert_self d k v = rw (lookup-insert, beq_refl)

  pub lookup-insert_ne :
      (d : Dict K V) (k j : K) (v : V) → (k == j) ≡ false → lookup j (insert k v d) ≡ lookup j d
  lookup-insert_ne d k j v other = rw (lookup-insert, other)

  -- The values at two spellings of one key.
  pub lookup_same : (d : Dict K V) (k j : K) → (k == j) ≡ true → lookup k d ≡ lookup j d
  lookup_same d k j same = ap (λ i. lookup i d) ((e.test_iff k j).0 same)

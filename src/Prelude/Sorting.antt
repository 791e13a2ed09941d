-- ===== src/Prelude/Sorting.antt =====
-- Python's `sorted`, which is stable, on values beside their keys.
use Prim.Native.Nat.{ℕ, ◌+◌, ◌≤◌}
use mathlib.Core.Path.{◌≡◌, refl}
use mathlib.Core.Logic.{inl, inr}
use mathlib.Core.List.{List, [], ◌∷◌}
use native.Mathlib.Omega.{arith}
use grok_bot_data.Prelude.Tests.{leb, leb→le, Bool-cases, if◌then◌else◌}
use grok_bot_data.Prelude.Lists.{All, length}

abbrev pub snd {ℓ κ} : {A : Type ℓ} {B : Type κ} → A × B → B
snd (a, b) = b

module _ {ℓ} {A : Type ℓ} where
  -- Before the first entry with a key that is not smaller.
  unfoldable pub place : ℕ × A → List (ℕ × A) → List (ℕ × A)
  place x [] = x ∷ []
  place x (y ∷ ys) = if leb x.0 y.0 then x ∷ y ∷ ys else y ∷ place x ys

  unfoldable pub sorted : List (ℕ × A) → List (ℕ × A)
  unfolding place
  sorted [] = []
  sorted (x ∷ xs) = place x (sorted xs)

  pub length-place : (x : ℕ × A) (ys : List (ℕ × A)) → length (place x ys) ≡ length ys + 1
  unfolding place
  length-place x [] = refl
  length-place x (y ∷ ys) = ground (arith, length-place x ys)

  pub length-sorted : (xs : List (ℕ × A)) → length (sorted xs) ≡ length xs
  unfolding sorted
  length-sorted [] = refl
  length-sorted (x ∷ xs) = omega (arith, length-place x (sorted xs), length-sorted xs)

module _ {ℓ κ} {A : Type ℓ} (Q : ℕ × A → Type κ) where
  pub All-place : (x : ℕ × A) (ys : List (ℕ × A)) → Q x → All Q ys → All Q (place x ys)
  unfolding place
  All-place x [] q h = (q, tt)
  All-place x (y ∷ ys) q h = elim (Bool-cases (leb x.0 y.0)) [
    | inl le ↦ rw le (q, h)
    | inr gt ↦ rw gt (h.0, All-place x ys q h.1)
  ]

  pub All-sorted : (xs : List (ℕ × A)) → All Q xs → All Q (sorted xs)
  unfolding sorted
  All-sorted [] h = tt
  All-sorted (x ∷ xs) h = All-place x (sorted xs) h.0 (All-sorted xs h.1)

-- Every entry is at most each one after it.
abbrev pub IsSorted {ℓ} : {A : Type ℓ} → List (ℕ × A) → Type ℓ
IsSorted [] = Unit
IsSorted (x ∷ xs) = All (λ y. x.0 ≤ y.0) xs × IsSorted xs

All-weaken {ℓ} :
    {A : Type ℓ} (m n : ℕ) (xs : List (ℕ × A))
    → m ≤ n
    → All (λ (y : ℕ × A). n ≤ y.0) xs
    → All (λ (y : ℕ × A). m ≤ y.0) xs
All-weaken m n [] le h = tt
All-weaken m n (x ∷ xs) le h = (omega arith, All-weaken m n xs le h.1)

module _ {ℓ} {A : Type ℓ} where
  place-IsSorted : (x : ℕ × A) (ys : List (ℕ × A)) → IsSorted ys → IsSorted (place x ys)
  unfolding place
  place-IsSorted x [] h = (tt, tt)
  place-IsSorted x (y ∷ ys) h = elim (Bool-cases (leb x.0 y.0)) [
    | inl le ↦ rw le ((leb→le x.0 y.0 le, All-weaken x.0 y.0 ys (leb→le x.0 y.0 le) h.0), h)
    | inr gt ↦ rw gt (All-place (λ z. y.0 ≤ z.0) x ys (ground arith) h.0, place-IsSorted x ys h.1)
  ]

  pub sorted-IsSorted : (xs : List (ℕ × A)) → IsSorted (sorted xs)
  unfolding sorted
  sorted-IsSorted [] = tt
  sorted-IsSorted (x ∷ xs) = place-IsSorted x (sorted xs) (sorted-IsSorted xs)

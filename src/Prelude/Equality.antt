-- ===== src/Prelude/Equality.antt =====
-- Python's `==` as an interface: a Boolean test that decides the paths of a type.
use Prim.Native.Nat.{ℕ}
use Prim.Native.String.{String}
use text.Mathlib.Text.{◌==◌ as str_beq}
use text.Mathlib.TextEquality.{eq_iff}
use mathlib.Core.Path.{◌≡◌, refl}
use mathlib.Core.Logic.{◌↔◌, ◌≢◌}
use mathlib.Core.Bool.{Bool, true, false, not, ◌&&◌}
use mathlib.Core.Option.{Option, none, some}
use native.Mathlib.Omega.{arith}
use grok_bot_data.Prelude.Tests.{nat_beq, nat_beq_iff}

-- `__eq__` of a class whose equality is structural
pub record Eq {ℓ} (K : Type ℓ) : Type ℓ where
  pub test : (x y : K) → Bool
  pub test_iff : (x y : K) → (test x y ≡ true) ↔ (x ≡ y)

module _ {ℓ} {A : Type ℓ} ⦃same : Eq A⦄ where
  infix 50 ◌!=◌ ◌==◌
  abbrev pub ◌!=◌ : A → A → Bool
  x != y = not (same.test x y)

  abbrev pub ◌==◌ : A → A → Bool
  x == y = same.test x y

-- texts, by code points
instance abbrev pub string_eq : Eq String
string_eq = record { test_iff = eq_iff; test = str_beq }

instance abbrev pub nat_eq : Eq ℕ
nat_eq = record { test_iff = nat_beq_iff; test = nat_beq }

abbrev pair_beq {ℓ} : {A B : Type ℓ} → Eq A → Eq B → A × B → A × B → Bool
pair_beq e f (a, b) (c, d) = e.test a c && f.test b d

pub pair_beq_iff {ℓ} :
    {A B : Type ℓ} (e : Eq A) (f : Eq B) (p q : A × B) → (pair_beq e f p q ≡ true) ↔ (p ≡ q)
pair_beq_iff e f (a, b) (c, d) = ground (arith, e.test_iff a c, f.test_iff b d)

-- a tuple key
instance abbrev pub pair_eq {ℓ} : {A B : Type ℓ} ⦃e : Eq A⦄ ⦃f : Eq B⦄ → Eq (A × B)
pair_eq ⦃e⦄ ⦃f⦄ = record { test = pair_beq e f; test_iff = pair_beq_iff e f }

abbrev option_beq {ℓ} : {A : Type ℓ} → Eq A → Option A → Option A → Bool
option_beq e none none = true
option_beq e (some a) (some b) = e.test a b
option_beq e _ _ = false

pub option_beq_iff {ℓ} :
    {A : Type ℓ} (e : Eq A) (o p : Option A) → (option_beq e o p ≡ true) ↔ (o ≡ p)
option_beq_iff e none none = ground arith
option_beq_iff e (some a) (some b) = ground (arith, e.test_iff a b)
option_beq_iff e none (some b) = ground arith
option_beq_iff e (some a) none = ground arith

instance abbrev pub option_eq {ℓ} : {A : Type ℓ} ⦃e : Eq A⦄ → Eq (Option A)
option_eq ⦃e⦄ = record { test = option_beq e; test_iff = option_beq_iff e }

module _ {ℓ} {A : Type ℓ} ⦃e : Eq A⦄ where
  pub beq_refl : (a : A) → (a == a) ≡ true
  beq_refl a = (e.test_iff a a).1 refl

  pub beq_ne : (a b : A) → a ≢ b → (a == b) ≡ false
  beq_ne a b h = ground (arith, e.test_iff a b)

  pub beq_sym : (a b : A) → (a == b) ≡ (b == a)
  beq_sym a b = ground (arith, e.test_iff a b, e.test_iff b a)

-- ===== src/Prelude/Effect.antt =====
-- A method that mutates its object and may raise. What was written before a raise stays written,
-- so the state comes back beside the error too.
use mathlib.Core.Path.{◌≡◌, refl, ap}
use mathlib.Core.Bool.{Bool, true, false}
use mathlib.Core.Option.{Option, none, some}

pub data Result {ℓ} (E A : Type ℓ) : Type ℓ where
  ok : A → Result E A
  err : E → Result E A

abbrev pub Exec {ℓ} : Type ℓ → Type ℓ → Type ℓ → Type ℓ
Exec S E A = S → Result E A × S

module _ {ℓ} {S E A : Type ℓ} where
  abbrev pub pure : A → Exec S E A
  pure a s = (ok a, s)

  abbrev pub raise : E → Exec S E A
  raise e s = (err e, s)

  -- an expression over the fields
  abbrev pub gets : (S → A) → Exec S E A
  gets f s = (ok (f s), s)

  abbrev pub or_raise : Option A → E → Exec S E A
  or_raise none e = raise e
  or_raise (some a) e = pure a

  abbrev pub lift : Result E A → Exec S E A
  lift r s = (r, s)

-- `if c: raise e`
abbrev pub raise_if {ℓ} : {S E : Type ℓ} → Bool → E → Exec S E (Unit {ℓ})
raise_if true e s = (err e, s)
raise_if false e s = (ok tt, s)

abbrev pub modify {ℓ} : {S E : Type ℓ} → (S → S) → Exec S E (Unit {ℓ})
modify f s = (ok tt, f s)

module _ {ℓ} {S E A B : Type ℓ} where
  abbrev pub continue : Result E A → (A → Exec S E B) → Exec S E B
  continue (ok a) f s = f a s
  continue (err e) f s = (err e, s)

  infixl 5 ◌>>=◌
  abbrev pub ◌>>=◌ : Exec S E A → (A → Exec S E B) → Exec S E B
  ◌>>=◌ m f s = let (r, s') = m s in continue r f s'

infixl 5 ◌>>◌
abbrev pub ◌>>◌ {ℓ} : {S E A : Type ℓ} → Exec S E (Unit {ℓ}) → Exec S E A → Exec S E A
m >> n = m >>= λ _. n

pub err-ne-ok : {E A : Type 0} (e : E) (a : A) → Path (Result E A) (err e) (ok a) → ⊥
err-ne-ok e a h = cc

pub ok_injective : {E A : Type 0} {a b : A} → Path (Result E A) (ok a) (ok b) → a ≡ b
ok_injective h = cc

-- What a call that returned shows of the tests on its way.
pub raise_if-returned :
    {S E A : Type 0} (c : Bool) (e : E) (k : Exec S E A) (s s' : S) (a : A)
    → (raise_if c e >> k) s ≡ (ok a, s')
    → (c ≡ false) × (k s ≡ (ok a, s'))
raise_if-returned true e k s s' a h = absurd (err-ne-ok e a (ap (λ r. r.0) h))
raise_if-returned false e k s s' a h = (refl, h)

pub or_raise-returned :
    {S E A B : Type 0} (o : Option A) (e : E) (k : A → Exec S E B) (s s' : S) (b : B)
    → (or_raise o e >>= k) s ≡ (ok b, s')
    → (a : A) × (o ≡ some a) × (k a s ≡ (ok b, s'))
or_raise-returned none e k s s' b h = absurd (err-ne-ok e b (ap (λ r. r.0) h))
or_raise-returned (some a) e k s s' b h = (a, refl, h)

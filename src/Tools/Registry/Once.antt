-- ===== src/Tools/Registry/Once.antt =====
-- An effect is performed once (tools/registry.py).
use grok_bot_data.Prelude.{
  String, refl, ap, subst, inl, inr, Bool, true, false, not, Option, none, some, List, [],
  Bool-cases, Option-cases, Eq, Result, ok, err, pure, gets, modify, elem, raise_if-returned,
  string_eq, pair_eq, option_eq, nat_eq, ◌≡◌, ◌⊎◌, ◌∷◌, ◌∙◌, ◌>>=◌, ◌>>◌,
}
use grok_bot_data.Prelude.Effect.{err-ne-ok, ok_injective}
use grok_bot_data.Prelude.Dict.{
  Dict, lookup, insert, key_differs, lookup-insert_self, lookup-insert_ne,
}
use grok_bot_data.Tools.Registry.{
  ToolContext, ToolSpec, ToolRegistry, ToolHandler, ToolValidationError, tool_denied, effect_key,
  is_effectful, validate, perform, finished, or_invalid, invoke,
}

Result-cases : {E A : Type 0} (r : Result E A) → ((a : A) × (r ≡ ok a)) ⊎ ((x : E) × (r ≡ err x))
Result-cases (ok a) = inl (a, refl)
Result-cases (err x) = inr (x, refl)

module _ {V R W : Type 0} where
  -- The tools stay, and every recorded effect.
  pub record Keeps (s s' : ToolRegistry V R W) : Type 0 where
    pub specs_kept : s'.specs ≡ s.specs
    pub effects_kept :
        (k : (String × String) × String) (r : R)
        → lookup k s.effects ≡ some r
        → lookup k s'.effects ≡ some r

  Keeps-refl : (s : ToolRegistry V R W) → Keeps s s
  Keeps-refl s = record { specs_kept = refl; effects_kept = λ k r h. h }

  Keeps-trans : {s t u : ToolRegistry V R W} → Keeps s t → Keeps t u → Keeps s u
  Keeps-trans h k = record {
    specs_kept = k.specs_kept ∙ h.specs_kept;
    effects_kept = λ j r there. k.effects_kept j r (h.effects_kept j r there);
  }

  finished-Keeps :
      {X : Type 0} (x : Result X R × W) (s : ToolRegistry V R W) → Keeps s (finished {V = V} x s).1
  finished-Keeps (ok r, w) s = record { specs_kept = refl; effects_kept = λ k q h. h }
  finished-Keeps (err x, w) s = record { specs_kept = refl; effects_kept = λ k q h. h }

  -- A new effect stands where there was none.
  recorded-Keeps :
      {X : Type 0} (x : Result X R × W) (k : (String × String) × String) (s : ToolRegistry V R W)
      → lookup k s.effects ≡ none
      → Keeps s
          ((finished {V = V} x >>= (λ result.
              modify (λ t. record t { effects = insert k result t.effects }) >> pure result))
            s).1
  recorded-Keeps (ok r, w) k s free = record {
    specs_kept = refl;
    effects_kept =
        λ j q h. lookup-insert_ne s.effects k j r (key_differs s.effects k j q free h) ∙ h;
  }
  recorded-Keeps (err x, w) k s free = record { specs_kept = refl; effects_kept = λ j q h. h }

recorded :
    {V R W X : Type 0} (x : Result X R × W) (k : (String × String) × String)
    (s s' : ToolRegistry V R W) (r : R)
    → (finished {V = V} x >>= (λ result.
          modify (λ t. record t { effects = insert k result t.effects }) >> pure result))
        s
      ≡ (ok r, s')
    → lookup k s'.effects ≡ some r
recorded (ok q, w) k s s' r ran =
    subst (λ t. lookup k t.effects ≡ some r) (ap (λ y. y.1) ran)
      (lookup-insert_self s.effects k q ∙ ap some (ok_injective (ap (λ y. y.0) ran)))
recorded (err x, w) k s s' r ran = absurd (err-ne-ok _ _ (ap (λ y. y.0) ran))

module _ {V R W X : Type 0} ⦃e : Eq V⦄ (is_string is_integer is_array : V → Bool) where
  perform-Keeps :
      (effectful : Bool) (tool : String) (context : ToolContext) (payload : Dict String V)
      (handler : ToolHandler V R W X) (s : ToolRegistry V R W) (known : Option R)
      → lookup (effect_key tool context) s.effects ≡ known
      → Keeps s
          (perform is_string is_integer is_array effectful tool context payload handler known s).1
  unfolding perform
  perform-Keeps true tool context payload handler s (some r) h = Keeps-refl s
  perform-Keeps true tool context payload handler s none h =
      recorded-Keeps (handler context payload s.world) (effect_key tool context) s h
  perform-Keeps false tool context payload handler s known h =
      finished-Keeps (handler context payload s.world) s

  invoke-Keeps :
      (tool : String) (context : ToolContext) (payload : Dict String V)
      (handler : ToolHandler V R W X) (s : ToolRegistry V R W)
      → Keeps s (invoke is_string is_integer is_array tool context payload handler s).1
  unfolding invoke
  invoke-Keeps tool context payload handler s = elim (Option-cases (lookup tool s.specs)) [
    | inl miss ↦ rw miss (Keeps-refl s)
    | inr (spec, hit) ↦ elim (Bool-cases (not (elem context.bot_template spec.grants))) [
      | inl denied ↦ rw (hit, denied) (Keeps-refl s)
      | inr granted ↦ elim (Result-cases (validate is_string is_integer is_array spec payload)) [
        | inl (good, valid) ↦
            rw (hit, granted, valid)
              (perform-Keeps (is_effectful spec) tool context payload handler s _ refl)
        | inr (problem, invalid) ↦ rw (hit, granted, invalid) (Keeps-refl s)
      ]
    ]
  ]

  unfoldable pub invocations :
      List (String × ToolContext × Dict String V × ToolHandler V R W X)
      → ToolRegistry V R W
      → ToolRegistry V R W
  invocations [] s = s
  invocations ((tool, context, payload, handler) ∷ rest) s =
      invocations rest (invoke is_string is_integer is_array tool context payload handler s).1

  invocations-Keeps :
      (calls : List (String × ToolContext × Dict String V × ToolHandler V R W X))
      (s t : ToolRegistry V R W)
      → Keeps s t
      → Keeps s (invocations calls t)
  unfolding invocations
  invocations-Keeps [] s t h = h
  invocations-Keeps ((tool, context, payload, handler) ∷ rest) s t h =
      invocations-Keeps rest s _ (Keeps-trans h (invoke-Keeps tool context payload handler t))

  -- An effectful tool that returned has recorded its result.
  performed :
      (tool : String) (context : ToolContext) (payload : Dict String V)
      (handler : ToolHandler V R W X) (s s' : ToolRegistry V R W) (known : Option R) (r : R)
      → lookup (effect_key tool context) s.effects ≡ known
      → perform is_string is_integer is_array true tool context payload handler known s ≡ (ok r, s')
      → lookup (effect_key tool context) s'.effects ≡ some r
  unfolding perform
  performed tool context payload handler s s' (some q) r h ran =
      subst (λ t. lookup (effect_key tool context) t.effects ≡ some r) (ap (λ y. y.1) ran)
        (h ∙ ap some (ok_injective (ap (λ y. y.0) ran)))
  performed tool context payload handler s s' none r h ran =
      recorded (handler context payload s.world) (effect_key tool context) s s' r ran

  module _ (tool : String) (spec : ToolSpec V) (effectful : is_effectful spec ≡ true) where
    invoked :
        (context : ToolContext) (payload : Dict String V) (handler : ToolHandler V R W X)
        (s s' : ToolRegistry V R W) (r : R)
        → lookup tool s.specs ≡ some spec
        → invoke is_string is_integer is_array tool context payload handler s ≡ (ok r, s')
        → lookup (effect_key tool context) s'.effects ≡ some r
    unfolding invoke
    invoked context payload handler s s' r hit ran =
        let (granted, ran1) =
          raise_if-returned (not (elem context.bot_template spec.grants)) tool_denied _ s s' r
            (rw hit at ran) in
        performed tool context payload handler s s' _ r refl (
          subst
            (λ b.
              perform is_string is_integer is_array b tool context payload handler
                (lookup (effect_key tool context) s.effects) s
              ≡ (ok r, s'))
            effectful (checked (validate is_string is_integer is_array spec payload) ran1))
      where
        checked :
            (v : Result ToolValidationError Unit)
            → (or_invalid is_string is_integer is_array v
                  >> (gets (λ t. lookup (effect_key tool context) t.effects)
                      >>= perform is_string is_integer is_array
                          (is_effectful spec)
                          tool
                          context
                          payload
                          handler))
                s
              ≡ (ok r, s')
            → perform is_string is_integer is_array
                (is_effectful spec)
                tool
                context
                payload
                handler
                (lookup (effect_key tool context) s.effects)
                s
              ≡ (ok r, s')
        checked (ok u) h = h
        checked (err problem) h = absurd (err-ne-ok _ _ (ap (λ y. y.0) h))

    -- After an invocation of an effectful tool returned, and any others after it, an invocation of
    -- the tool for the same actor and idempotency key, granted and with a valid payload, returns
    -- the same result and changes nothing: its handler does not run.
    pub invoke_once :
        (context context' : ToolContext) (payload payload' : Dict String V)
        (handler handler' : ToolHandler V R W X) (s s' : ToolRegistry V R W) (r : R)
        (calls : List (String × ToolContext × Dict String V × ToolHandler V R W X))
        → lookup tool s.specs ≡ some spec
        → invoke is_string is_integer is_array tool context payload handler s ≡ (ok r, s')
        → elem context'.bot_template spec.grants ≡ true
        → validate is_string is_integer is_array spec payload' ≡ ok tt
        → effect_key tool context' ≡ effect_key tool context
        → invoke is_string is_integer is_array tool context' payload' handler'
            (invocations calls s')
          ≡ (ok r, invocations calls s')
    unfolding invoke perform
    invoke_once context context' payload payload' handler handler' s s' r calls hit ran granted
          valid same =
        let first = subst (λ y. Keeps s y.1) ran (invoke-Keeps tool context payload handler s) in
        let later = invocations-Keeps calls s' s' (Keeps-refl s') in
        let specs = ap (λ d. lookup tool d) (later.specs_kept ∙ first.specs_kept) ∙ hit in
        let known =
          ap (λ k. lookup k (invocations calls s').effects) same
          ∙ later.effects_kept (effect_key tool context) r
              (invoked context payload handler s s' r hit ran) in
        rw (specs, granted, valid, effectful, known) refl

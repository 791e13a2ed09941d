-- ===== src/Durable/Runs/Tenure.antt =====
-- The tenure of a run, which is all that a worker may rely on: an abstract account of
-- packages/platform/src/vda_platform/jobs/repository.py, with no tables and no other runs.
use grok_bot_data.Prelude.{ℕ, String, List, [], arith, ◌+◌, ◌≤◌, ◌≡◌, ◌∷◌}

-- A run is free to claim, held until an instant, set aside, or over; each with its fence.
pub data Tenure : Type 0 where
  vacant : ℕ → Tenure
  held : String → ℕ → ℕ → Tenure
  set_aside over : ℕ → Tenure

-- What may happen to a run at an instant.
pub data Turn (now : ℕ) : Tenure → Tenure → Type 0 where
  claimed : (w : String) (f until : ℕ) → Turn now (vacant f) (held w (f + 1) until)
  -- only of a holder whose time is up
  taken_over :
      (v w : String) (f due until : ℕ) → due ≤ now → Turn now (held v f due) (held w (f + 1) until)
  -- a checkpoint, a heartbeat, the start
  used : (w : String) (f due until : ℕ) → Turn now (held w f due) (held w f until)
  handed_back : (w : String) (f due : ℕ) → Turn now (held w f due) (vacant f)
  suspended : (w : String) (f due : ℕ) → Turn now (held w f due) (set_aside f)
  ended : (w : String) (f due : ℕ) → Turn now (held w f due) (over f)
  woken : (f : ℕ) → Turn now (set_aside f) (vacant f)

-- One after another, at the instants of a sequence of calls: at each of them the run stays as it is,
-- or takes one turn of that instant.
pub data Turns : List ℕ → Tenure → Tenure → Type 0 where
  none_left : (t : Tenure) → Turns [] t t
  idle_then : (now : ℕ) (rest : List ℕ) (t v : Tenure) → Turns rest t v → Turns (now ∷ rest) t v
  turn_then :
      (now : ℕ) (rest : List ℕ) (t u v : Tenure)
      → Turn now t u
      → Turns rest u v
      → Turns (now ∷ rest) t v

abbrev pub fence_of : Tenure → ℕ
fence_of (vacant f) = f
fence_of (held w f due) = f
fence_of (set_aside f) = f
fence_of (over f) = f

-- who holds the run at the fence `f`, if it is held at that fence
abbrev pub HeldBy : String → ℕ → Tenure → Type 0
HeldBy w f (held v g due) = g ≡ f → v ≡ w
HeldBy w f _ = Unit

Turn-fence_of : (now : ℕ) (t u : Tenure) → Turn now t u → fence_of t ≤ fence_of u
Turn-fence_of now _ _ (claimed w f until) = omega arith
Turn-fence_of now _ _ (taken_over v w f due until late) = omega arith
Turn-fence_of now _ _ (used w f due until) = omega arith
Turn-fence_of now _ _ (handed_back w f due) = omega arith
Turn-fence_of now _ _ (suspended w f due) = omega arith
Turn-fence_of now _ _ (ended w f due) = omega arith
Turn-fence_of now _ _ (woken f) = omega arith

pub Turns-fence_of : (times : List ℕ) (t u : Tenure) → Turns times t u → fence_of t ≤ fence_of u
Turns-fence_of _ _ _ (none_left t) = omega arith
Turns-fence_of _ _ _ (idle_then now rest t v more) = Turns-fence_of rest t v more
Turns-fence_of _ _ _ (turn_then now rest t u v turn more) =
    omega (arith, Turn-fence_of now t u turn, Turns-fence_of rest u v more)

Turn-HeldBy :
    (w : String) (f now : ℕ) (t u : Tenure)
    → f ≤ fence_of t
    → HeldBy w f t
    → Turn now t u
    → HeldBy w f u
Turn-HeldBy w f now _ _ le h (claimed x g until) = λ same. absurd (omega arith)
Turn-HeldBy w f now _ _ le h (taken_over v x g due until late) = λ same. absurd (omega arith)
Turn-HeldBy w f now _ _ le h (used x g due until) = h
Turn-HeldBy w f now _ _ le h (handed_back x g due) = tt
Turn-HeldBy w f now _ _ le h (suspended x g due) = tt
Turn-HeldBy w f now _ _ le h (ended x g due) = tt
Turn-HeldBy w f now _ _ le h (woken g) = tt

-- At one fence a run has one holder.
pub Turns-HeldBy :
    (times : List ℕ) (w : String) (f : ℕ) (t u : Tenure)
    → f ≤ fence_of t
    → HeldBy w f t
    → Turns times t u
    → HeldBy w f u
Turns-HeldBy _ w f _ _ le h (none_left t) = h
Turns-HeldBy _ w f _ _ le h (idle_then now rest t v more) = Turns-HeldBy rest w f t v le h more
Turns-HeldBy _ w f _ _ le h (turn_then now rest t u v turn more) =
    Turns-HeldBy rest w f u v (omega (arith, Turn-fence_of now t u turn))
      (Turn-HeldBy w f now t u le h turn) more

-- A run that is over stays over.
pub Turns-over : (times : List ℕ) (f : ℕ) (t u : Tenure) → t ≡ over f → Turns times t u → u ≡ over f
Turns-over _ f _ _ h (none_left t) = h
Turns-over _ f _ _ h (idle_then now rest t v more) = Turns-over rest f t v h more
Turns-over _ f _ _ h (turn_then now rest t u v turn more) = absurd (no_turn now t u h turn)
  where
    no_turn : (now : ℕ) (t u : Tenure) → t ≡ over f → Turn now t u → ⊥
    no_turn now _ _ h (claimed x g until) = cc
    no_turn now _ _ h (taken_over v x g due until late) = cc
    no_turn now _ _ h (used x g due until) = cc
    no_turn now _ _ h (handed_back x g due) = cc
    no_turn now _ _ h (suspended x g due) = cc
    no_turn now _ _ h (ended x g due) = cc
    no_turn now _ _ h (woken g) = cc

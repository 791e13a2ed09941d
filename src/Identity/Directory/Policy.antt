-- ===== src/Identity/Directory/Policy.antt =====
-- Every workspace keeps an owner, and access changes only with the policy generation
-- (identity/directory.py).
use grok_bot_data.Prelude.{
  ℕ, String, refl, sym, ap, subst, inl, inr, Bool, true, false, Option, none, some, List, [], arith,
  leb, Bool-cases, beq_refl, string_eq, some_injective, pair_eq, option_eq, nat_eq, ◌+◌, ◌≤◌, ◌≡◌,
  ◌⊎◌, ◌&&◌, ◌∷◌, ◌∙◌, ◌==◌, if◌then◌else◌,
}
use grok_bot_data.Prelude.Dict.{
  Dict, lookup, insert, lookup-insert, key_differs, lookup-insert_self, lookup-insert_ne,
  lookup_same,
}
use grok_bot_data.Identity.Directory.{
  Directory, PrincipalType, Workspace, WorkspaceRole, Membership, new, is_active, is_owner,
  is_active_owner, is_active_member, active_owner_count, bumped, register_principal,
  create_workspace, add_member, remove_member, grant_resource, revoke_resource, can_access, allows,
}
use grok_bot_data.Identity.Directory.Changes.{
  Change, unchanged, registered, founded, joined, left, regranted, founder, bump_in,
  register-Change, create-Change, add-Change, remove-Change, grant-Change, revoke-Change,
}

pub data IdentityCall : Type 0 where
  register_call : String → PrincipalType → IdentityCall
  create_call : String → String → IdentityCall
  add_call : String → String → String → WorkspaceRole → IdentityCall
  remove_call : String → String → String → IdentityCall
  grant_call : String → String → String → String → String → Bool → Bool → IdentityCall
  revoke_call : String → String → String → String → String → IdentityCall

unfoldable pub step : IdentityCall → Directory → Directory
step (register_call id t) s = (register_principal id t s).1
step (create_call w o) s = (create_workspace w o s).1
step (add_call w actor p role) s = (add_member w actor p role s).1
step (remove_call w actor p) s = (remove_member w actor p s).1
step (grant_call w actor r t p read write) s = (grant_resource w actor r t p read write s).1
step (revoke_call w actor t r p) s = (revoke_resource w actor t r p s).1

unfoldable pub steps : List IdentityCall → Directory → Directory
steps [] s = s
steps (call ∷ rest) s = steps rest (step call s)

step-Change : (call : IdentityCall) (s : Directory) → Change s (step call s)
unfolding step
step-Change (register_call id t) s = register-Change s id t
step-Change (create_call w o) s = create-Change s w o
step-Change (add_call w actor p role) s = add-Change s w actor p role
step-Change (remove_call w actor p) s = remove-Change s w actor p
step-Change (grant_call w actor r t p read write) s = grant-Change s w actor r t p read write
step-Change (revoke_call w actor t r p) s = revoke-Change s w actor t r p

-- what a membership in `v` adds to the owners of `w`
abbrev weight : String → String → Option Membership → ℕ
weight w v none = 0
weight w v (some m) = if v == w && is_active_owner m then 1 else 0

and_true : (a b : Bool) → a && b ≡ true → (a ≡ true) × (b ≡ true)
and_true true b h = (refl, h)
and_true false b h = cc

count-insert :
    (w v p : String) (m : Membership) (d : Dict (String × String) Membership)
    → active_owner_count w (insert (v, p) m d) + weight w v (lookup (v, p) d)
      ≡ active_owner_count w d + weight w v (some m)
unfolding active_owner_count insert lookup
count-insert w v p m [] = omega arith
count-insert w v p m (((i, q), n) ∷ d) = elim (Bool-cases (i == v && q == p)) [
  | inl here ↦
      rw (here, (string_eq.test_iff i v).0 (and_true (i == v) (q == p) here).0) (omega arith)
  | inr there ↦ rw there (omega (arith, count-insert w v p m d))
]

founder_counts :
    (w o : String) (d : Dict (String × String) Membership)
    → 1 ≤ active_owner_count w (insert (w, o) (founder w o) d)
unfolding active_owner_count insert
founder_counts w o [] = rw beq_refl (omega arith)
founder_counts w o (((i, q), n) ∷ d) = elim (Bool-cases (i == w && q == o)) [
  | inl here ↦ rw (here, (and_true (i == w) (q == o) here).0) (omega arith)
  | inr there ↦ rw there (omega (arith, founder_counts w o d))
]

-- A workspace that is there after a bump was there before.
bump_in-back :
    (s : Directory) (w v : String) (ws was : Workspace)
    → lookup w s.workspaces ≡ some was
    → lookup v (bump_in s w was) ≡ some ws
    → (old : Workspace) × (lookup v s.workspaces ≡ some old)
bump_in-back s w v ws was hit h = elim (Bool-cases (w == v)) [
  | inl same ↦ (was, sym (lookup_same s.workspaces w v same) ∙ hit)
  | inr other ↦ (ws, sym (lookup-insert_ne s.workspaces w v (bumped was) other) ∙ h)
]

inactive_weight : (w v : String) (o : Option Membership) → is_active o ≡ false → weight w v o ≡ 0
inactive_weight w v none h = refl
inactive_weight w v (some m) h = ground arith

weight_bound : (w v : String) (o : Option Membership) → weight w v o ≤ 1
weight_bound w v none = omega arith
weight_bound w v (some m) = ground arith

-- Every workspace has an active owner.
abbrev Owned : Directory → Type 0
Owned s =
    (w : String) (ws : Workspace)
    → lookup w s.workspaces ≡ some ws
    → 1 ≤ active_owner_count w s.memberships

-- A membership in another workspace counts for nothing.
count-insert_ne :
    (w v p : String) (m : Membership) (d : Dict (String × String) Membership)
    → (v == w) ≡ false
    → active_owner_count w (insert (v, p) m d) ≡ active_owner_count w d
count-insert_ne w v p m d other =
    omega (arith, count-insert w v p m d, no_weight (lookup (v, p) d), no_weight (some m))
  where
    no_weight : (o : Option Membership) → weight w v o ≡ 0
    no_weight none = refl
    no_weight (some n) = rw other

no_weight : (w v : String) (m : Membership) → is_owner m.role ≡ false → weight w v (some m) ≡ 0
no_weight w v m h = ground arith

two_or_more : (n : ℕ) → leb n 1 ≡ false → 2 ≤ n
two_or_more n h = ground arith

not_last_left :
    (w p : String) (current m : Membership) (d : Dict (String × String) Membership)
    → lookup (w, p) d ≡ some current
    → (is_owner current.role && leb (active_owner_count w d) 1) ≡ false
    → 1 ≤ active_owner_count w d
    → 1 ≤ active_owner_count w (insert (w, p) m d)
not_last_left w p current m d member kept h = elim (Bool-cases (is_owner current.role)) [
  | inl owns ↦ omega (
    arith,
    two_or_more (active_owner_count w d)
        (subst (λ b. b && leb (active_owner_count w d) 1 ≡ false) owns kept),
    count-insert w w p m d,
    weight_bound w w (lookup (w, p) d),
  )
  | inr other ↦
      omega (arith, h, count-insert w w p m d, ap (weight w w) member ∙ no_weight w w current other)
]

Change-Owned : (s s' : Directory) → Change s s' → Owned s → Owned s'
Change-Owned s s' unchanged h v ws at = h v ws at
Change-Owned s s' (registered id p free) h v ws at = h v ws at
Change-Owned s s' (founded w o made free) h v ws at = elim (Bool-cases (w == v)) [
  | inl same ↦
      subst (λ u. 1 ≤ active_owner_count u (insert (w, o) (founder w o) s.memberships))
        ((string_eq.test_iff w v).0 same) (founder_counts w o s.memberships)
  | inr other ↦
      subst (λ n. 1 ≤ n) (sym (count-insert_ne v w o (founder w o) s.memberships other))
        (h v ws (sym (lookup-insert_ne s.workspaces w v made other) ∙ at))
]
Change-Owned s s' (joined w p was m hit free present) h v ws at =
    let (old, there) = bump_in-back s w v ws was hit at in
    omega (
      arith,
      h v old there,
      count-insert v w p m s.memberships,
      inactive_weight v w (lookup (w, p) s.memberships) free,
    )
Change-Owned s s' (left w p was current m hit member kept) h v ws at =
    let (old, there) = bump_in-back s w v ws was hit at in
    elim (Bool-cases (w == v)) [
      | inl same ↦
          subst (λ u. 1 ≤ active_owner_count u (insert (w, p) m s.memberships))
            ((string_eq.test_iff w v).0 same)
            (not_last_left w p current m s.memberships member kept (h w was hit))
      | inr other ↦
          subst (λ n. 1 ≤ n) (sym (count-insert_ne v w p m s.memberships other)) (h v old there)
    ]
Change-Owned s s' (regranted w was grants hit frame) h v ws at =
    let (old, there) = bump_in-back s w v ws was hit at in h v old there

steps-Owned : (calls : List IdentityCall) (s : Directory) → Owned s → Owned (steps calls s)
unfolding steps
steps-Owned [] s h = h
steps-Owned (call ∷ rest) s h =
    steps-Owned rest (step call s) (Change-Owned s (step call s) (step-Change call s) h)

new-Owned : Owned new
unfolding new lookup
new-Owned w ws at = cc

-- Whatever calls a new directory takes, every workspace it holds then has at least one active
-- owner.
pub workspace_owned :
    (calls : List IdentityCall) (w : String) (ws : Workspace)
    → lookup w (steps calls new).workspaces ≡ some ws
    → 1 ≤ active_owner_count w (steps calls new).memberships
workspace_owned calls w ws at = steps-Owned calls new new-Owned w ws at

-- No answer of `can_access` about the workspace differs.
abbrev pub SameAccess : String → Directory → Directory → Type 0
SameAccess w s s' =
    (p t r : String) (write : Bool) → can_access w p t r write s' ≡ can_access w p t r write s

access_frame :
    (w : String) (s s' : Directory)
    → ((p : String) → lookup (w, p) s'.memberships ≡ lookup (w, p) s.memberships)
    → ((t r p : String) → lookup ((w, t), (r, p)) s'.grants ≡ lookup ((w, t), (r, p)) s.grants)
    → SameAccess w s s'
unfolding can_access is_active_member
access_frame w s s' members grants p t r write =
    ap (λ o. is_active o && allows (lookup ((w, t), (r, p)) s'.grants) write) (members p)
    ∙ ap (λ g. is_active (lookup (w, p) s.memberships) && allows g write) (grants t r p)

-- A write to the workspace `w`, seen from the workspace `v`.
bump_access :
    (s s' : Directory) (w v : String) (was ws : Workspace)
    → s'.workspaces ≡ bump_in s w was
    → lookup w s.workspaces ≡ some was
    → lookup v s.workspaces ≡ some ws
    → ((w == v) ≡ false → SameAccess v s s')
    → (lookup v s'.workspaces ≡ some (bumped ws))
      ⊎ ((lookup v s'.workspaces ≡ some ws) × SameAccess v s s')
bump_access s s' w v was ws write hit at frame = elim (Bool-cases (w == v)) [
  | inl same ↦ inl (
      ap (λ d. lookup v d) write
      ∙ sym (lookup_same (bump_in s w was) w v same)
      ∙ lookup-insert_self s.workspaces w (bumped was)
      ∙ ap (λ x. some (bumped x))
          (some_injective (sym hit ∙ lookup_same s.workspaces w v same ∙ at)))
  | inr other ↦ inr (
    ap (λ d. lookup v d) write ∙ lookup-insert_ne s.workspaces w v (bumped was) other ∙ at,
    frame other,
  )
]

members_frame :
    (s : Directory) (w p v : String) (m : Membership) (workspaces : Dict String Workspace)
    → (w == v) ≡ false
    → SameAccess v s
        (record s { memberships = insert (w, p) m s.memberships; workspaces = workspaces })
members_frame s w p v m workspaces other =
    access_frame v s _ (λ q. rw (lookup-insert, other) refl) (λ t r q. refl)

Change-access :
    (s s' : Directory) (v : String) (ws : Workspace)
    → Change s s'
    → lookup v s.workspaces ≡ some ws
    → (lookup v s'.workspaces ≡ some (bumped ws))
      ⊎ ((lookup v s'.workspaces ≡ some ws) × SameAccess v s s')
Change-access s s' v ws unchanged at = inr (at, λ p t r write. refl)
Change-access s s' v ws (registered id p free) at =
    inr (at, access_frame v s _ (λ q. refl) (λ t r q. refl))
Change-access s s' v ws (founded w o made free) at =
    let other : (w == v) ≡ false = key_differs s.workspaces w v ws free at in
    inr (
      lookup-insert_ne s.workspaces w v made other ∙ at,
      members_frame s w o v (founder w o) (insert w made s.workspaces) other,
    )
Change-access s s' v ws (joined w p was m hit free present) at =
    bump_access s _ w v was ws refl hit at (members_frame s w p v m (bump_in s w was))
Change-access s s' v ws (left w p was current m hit member kept) at =
    bump_access s _ w v was ws refl hit at (members_frame s w p v m (bump_in s w was))
Change-access s s' v ws (regranted w was grants hit frame) at =
    bump_access s _ w v was ws refl hit at
      (λ other. access_frame v s _ (λ q. refl) (λ t r q. frame v t r q other))

-- A call either moves the policy generation of a workspace up by one, or leaves the workspace as it
-- is and every answer of `can_access` about it.
pub step_access :
    (call : IdentityCall) (s : Directory) (w : String) (ws : Workspace)
    → lookup w s.workspaces ≡ some ws
    → (lookup w (step call s).workspaces ≡ some (bumped ws))
      ⊎ ((lookup w (step call s).workspaces ≡ some ws) × SameAccess w s (step call s))
step_access call s w ws at = Change-access s (step call s) w ws (step-Change call s) at

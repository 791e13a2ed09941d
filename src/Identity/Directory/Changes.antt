-- ===== src/Identity/Directory/Changes.antt =====
-- What a method of `IdentityDirectory` does to its four dicts (identity/directory.py).
use grok_bot_data.Prelude.{
  String, refl, inl, inr, Bool, true, false, not, none, some, ltb, leb, Bool-cases, Option-cases,
  raise_if, string_eq, pair_eq, option_eq, nat_eq, ◌≡◌, ◌&&◌, ◌||◌, ◌==◌, ◌>>=◌, ◌>>◌,
}
use grok_bot_data.Prelude.Dict.{Dict, lookup, insert, lookup-insert, lookup-remove}
use grok_bot_data.Identity.Directory.{
  Directory, IdentityCommand, IdentityError, Principal, PrincipalType, Workspace, WorkspaceRole,
  Membership, ResourceGrant, owner, is_human, is_owner, is_active, rank, workspace, membership,
  principal, is_active_member, require_active_member, require_role, active_owner_count, bumped,
  bump, register_principal, create_workspace, add_member, remove_member, grant_resource,
  revoke_resource,
}

abbrev pub founder : String → String → Membership
founder w o = record { workspace_id = w; principal_id = o; role = owner; active = true }

abbrev pub bump_in : Directory → String → Workspace → Dict String Workspace
bump_in s w ws = insert w (bumped ws) s.workspaces

-- The states a method can leave behind.
pub data Change (s : Directory) : Directory → Type 0 where
  unchanged : Change s s
  registered :
      (id : String) (p : Principal)
      → lookup id s.principals ≡ none
      → Change s (record s { principals = insert id p s.principals })
  founded :
      (w o : String) (ws : Workspace)
      → lookup w s.workspaces ≡ none
      → Change s (record s {
        workspaces = insert w ws s.workspaces;
        memberships = insert (w, o) (founder w o) s.memberships;
      })
  joined :
      (w p : String) (ws : Workspace) (m : Membership)
      → lookup w s.workspaces ≡ some ws
      → is_active (lookup (w, p) s.memberships) ≡ false
      → m.active ≡ true
      → Change s
          (record s { memberships = insert (w, p) m s.memberships; workspaces = bump_in s w ws })
  left :
      (w p : String) (ws : Workspace) (current m : Membership)
      → lookup w s.workspaces ≡ some ws
      → lookup (w, p) s.memberships ≡ some current
      → (is_owner current.role && leb (active_owner_count w s.memberships) 1) ≡ false
      → Change s
          (record s { memberships = insert (w, p) m s.memberships; workspaces = bump_in s w ws })
  regranted :
      (w : String) (ws : Workspace)
      (grants : Dict ((String × String) × (String × String)) ResourceGrant)
      → lookup w s.workspaces ≡ some ws
      → ((v t r p : String)
          → (w == v) ≡ false
          → lookup ((v, t), (r, p)) grants ≡ lookup ((v, t), (r, p)) s.grants)
      → Change s (record s { grants = grants; workspaces = bump_in s w ws })

module _ (s : Directory) where
  require-Change :
      {A : Type 0} (w actor : String) (k : IdentityCommand A)
      → ((ws : Workspace) → lookup w s.workspaces ≡ some ws → Change s (k s).1)
      → Change s ((require_role w actor owner >> k) s).1
  unfolding require_role membership workspace
  require-Change w actor k h = elim (Option-cases (lookup w s.workspaces)) [
    | inl miss ↦ rw miss unchanged
    | inr (ws, hit) ↦ elim (Option-cases (lookup (w, actor) s.memberships)) [
      | inl stranger ↦ rw (hit, stranger) unchanged
      | inr (m, member) ↦ elim (Bool-cases (not m.active || ltb (rank m.role) 3)) [
        | inl low ↦ rw (hit, member, low) unchanged
        | inr high ↦ rw (hit, member, high) (h ws hit)
      ]
    ]
  ]

  principal-Change :
      {A : Type 0} (id : String) (k : Principal → IdentityCommand A)
      → ((p : Principal) → Change s (k p s).1)
      → Change s ((principal id >>= k) s).1
  unfolding principal
  principal-Change id k h = elim (Option-cases (lookup id s.principals)) [
    | inl miss ↦ rw miss unchanged
    | inr (p, hit) ↦ rw hit (h p)
  ]

  raise_if-Change :
      {A : Type 0} (c : Bool) (e : IdentityError) (k : IdentityCommand A)
      → (c ≡ false → Change s (k s).1)
      → Change s ((raise_if c e >> k) s).1
  raise_if-Change true e k h = unchanged
  raise_if-Change false e k h = h refl

  pub register-Change : (id : String) (t : PrincipalType) → Change s (register_principal id t s).1
  unfolding register_principal
  register-Change id t = raise_if-Change (id == "") _ _ λ named.
      elim (Option-cases (lookup id s.principals)) [
        | inl free ↦ rw free (registered id _ free)
        | inr (p, hit) ↦ rw hit unchanged
      ]

  pub create-Change : (w o : String) → Change s (create_workspace w o s).1
  unfolding create_workspace
  create-Change w o = raise_if-Change (w == "") _ _ λ named.
      elim (Option-cases (lookup w s.workspaces)) [
        | inl free ↦ rw free (
            principal-Change o _
              λ p. raise_if-Change (not (is_human p.principal_type)) _ _ λ good. founded w o _ free)
        | inr (ws, hit) ↦ rw hit unchanged
      ]

  pub add-Change :
      (w actor p : String) (role : WorkspaceRole) → Change s (add_member w actor p role s).1
  unfolding add_member bump workspace
  add-Change w actor p role = require-Change w actor _ λ ws hit. principal-Change p _ λ found.
      raise_if-Change (is_owner role && not (is_human found.principal_type)) _ _ λ good.
        raise_if-Change (is_active (lookup (w, p) s.memberships)) _ _
          λ free. rw hit (joined w p ws _ hit free refl)

  pub remove-Change : (w actor p : String) → Change s (remove_member w actor p s).1
  unfolding remove_member membership bump workspace
  remove-Change w actor p = require-Change w actor _ λ ws hit.
      elim (Option-cases (lookup (w, p) s.memberships)) [
        | inl stranger ↦ rw (hit, stranger) unchanged
        | inr (current, member) ↦
            rw (hit, member)
              (raise_if-Change (not current.active) _ _ λ present.
                raise_if-Change
                  (is_owner current.role && leb (active_owner_count w s.memberships) 1) _ _
                  λ kept. rw hit (left w p ws current _ hit member kept))
      ]

  pub grant-Change :
      (w actor r t p : String) (read write : Bool)
      → Change s (grant_resource w actor r t p read write s).1
  unfolding grant_resource require_active_member bump workspace
  grant-Change w actor r t p read write = require-Change w actor _ λ ws hit.
      raise_if-Change (not read && write) _ _ λ good.
        raise_if-Change (not (is_active_member w p s)) _ _ λ present.
          rw hit (regranted w ws _ hit λ v t' r' p' other. rw (lookup-insert, other) refl)

  pub revoke-Change : (w actor t r p : String) → Change s (revoke_resource w actor t r p s).1
  unfolding revoke_resource bump workspace
  revoke-Change w actor t r p =
      require-Change w actor _
        λ ws hit. rw hit (regranted w ws _ hit λ v t' r' p' other. rw (lookup-remove, other) refl)

-- ===== src/Identity/Directory.antt =====
-- packages/platform/src/vda_platform/identity/directory.py: `IdentityDirectory`.
pub mod Changes
pub mod Policy
use grok_bot_data.Prelude.{
  ℕ, String, Bool, true, false, not, Option, none, some, [], ltb, leb, Exec, pure, gets, or_raise,
  raise_if, modify, string_eq, pair_eq, option_eq, nat_eq, ◌+◌, ◌&&◌, ◌||◌, ◌∷◌, ◌==◌, ◌>>=◌, ◌>>◌,
  if◌then◌else◌,
}
use grok_bot_data.Prelude.Dict.{Dict, lookup, insert, remove, contains}

-- `IdentityError` with one constructor for each message
pub data IdentityError : Type 0 where
  principal_id_required principal_exists workspace_id_required workspace_exists : IdentityError
  owner_not_human owner_not_a_bot already_a_member not_an_active_member : IdentityError
  last_owner write_needs_read workspace_not_found insufficient_role : IdentityError
  not_an_active_workspace_member not_a_member principal_not_found : IdentityError

pub data PrincipalType : Type 0 where
  human bot service : PrincipalType

pub data WorkspaceRole : Type 0 where
  viewer editor owner : WorkspaceRole

pub record Principal : Type 0 where
  pub principal_id : String
  pub principal_type : PrincipalType

pub record Workspace : Type 0 where
  pub workspace_id : String
  pub policy_generation : ℕ

pub record Membership : Type 0 where
  pub workspace_id : String
  pub principal_id : String
  pub role : WorkspaceRole
  pub active : Bool

pub record ResourceGrant : Type 0 where
  pub workspace_id : String
  pub resource_id : String
  pub resource_type : String
  pub principal_id : String
  pub read : Bool
  pub write : Bool
  pub generation : ℕ

-- The memberships are keyed by workspace and principal; the grants by workspace and resource type,
-- resource and principal.
pub record Directory : Type 0 where
  pub principals : Dict String Principal
  pub workspaces : Dict String Workspace
  pub memberships : Dict (String × String) Membership
  pub grants : Dict ((String × String) × (String × String)) ResourceGrant

abbrev pub IdentityCommand : Type 0 → Type 0
IdentityCommand A = Exec Directory IdentityError A

-- `IdentityDirectory.__init__`
unfoldable pub new : Directory
new = record { principals = []; workspaces = []; memberships = []; grants = [] }

abbrev pub is_human : PrincipalType → Bool
is_human human = true
is_human _ = false

abbrev pub is_owner : WorkspaceRole → Bool
is_owner owner = true
is_owner _ = false

-- the dict `rank`
abbrev pub rank : WorkspaceRole → ℕ
rank viewer = 1
rank editor = 2
rank owner = 3

abbrev pub is_active_owner : Membership → Bool
is_active_owner m = m.active && is_owner m.role

-- `IdentityDirectory.workspace`
unfoldable pub workspace : String → IdentityCommand Workspace
workspace workspace_id = do
  found ← gets (λ s. lookup workspace_id s.workspaces)
  or_raise found workspace_not_found

-- `IdentityDirectory._membership`, and `membership`
unfoldable pub membership : String → String → IdentityCommand Membership
unfolding workspace
membership workspace_id principal_id = do
  existing ← workspace workspace_id
  found ← gets (λ s. lookup (workspace_id, principal_id) s.memberships)
  or_raise found not_a_member

-- `IdentityDirectory._principal`
unfoldable pub principal : String → IdentityCommand Principal
principal principal_id = do
  found ← gets (λ s. lookup principal_id s.principals)
  or_raise found principal_not_found

-- `current is not None and current.active`
abbrev pub is_active : Option Membership → Bool
is_active none = false
is_active (some m) = m.active

-- `IdentityDirectory._is_active_member`
unfoldable pub is_active_member : String → String → Directory → Bool
is_active_member workspace_id principal_id s =
    is_active (lookup (workspace_id, principal_id) s.memberships)

-- `IdentityDirectory._require_active_member`
unfoldable pub require_active_member : String → String → IdentityCommand Unit
require_active_member workspace_id principal_id = do
  present ← gets (is_active_member workspace_id principal_id)
  raise_if (not present) not_an_active_workspace_member

-- `IdentityDirectory._require_role`
unfoldable pub require_role : String → String → WorkspaceRole → IdentityCommand Unit
unfolding membership
require_role workspace_id principal_id required = do
  m ← membership workspace_id principal_id
  raise_if (not m.active || ltb (rank m.role) (rank required)) insufficient_role

-- `IdentityDirectory._active_owner_count`
unfoldable pub active_owner_count : String → Dict (String × String) Membership → ℕ
active_owner_count workspace_id [] = 0
active_owner_count workspace_id (((member_workspace, p), m) ∷ rest) =
    (if member_workspace == workspace_id && is_active_owner m then 1 else 0)
    + active_owner_count workspace_id rest

-- the workspace that `IdentityDirectory._bump` writes
abbrev pub bumped : Workspace → Workspace
bumped w = record { workspace_id = w.workspace_id; policy_generation = w.policy_generation + 1 }

-- `IdentityDirectory._bump`
unfoldable pub bump : String → IdentityCommand ℕ
unfolding workspace
bump workspace_id = do
  existing ← workspace workspace_id
  modify (λ s. record s { workspaces = insert workspace_id (bumped existing) s.workspaces })
  pure (existing.policy_generation + 1)

-- `IdentityDirectory.register_principal`
unfoldable pub register_principal : String → PrincipalType → IdentityCommand Principal
register_principal principal_id principal_type = do
  raise_if (principal_id == "") principal_id_required
  taken ← gets (λ s. contains principal_id s.principals)
  raise_if taken principal_exists
  let fresh : Principal = record { principal_id = principal_id; principal_type = principal_type }
  modify (λ s. record s { principals = insert principal_id fresh s.principals })
  pure fresh

-- `IdentityDirectory.create_workspace`
unfoldable pub create_workspace : String → String → IdentityCommand Workspace
unfolding principal
create_workspace workspace_id owner_id = do
  raise_if (workspace_id == "") workspace_id_required
  taken ← gets (λ s. contains workspace_id s.workspaces)
  raise_if taken workspace_exists
  found ← principal owner_id
  raise_if (not (is_human found.principal_type)) owner_not_human
  let fresh : Workspace = record { workspace_id = workspace_id; policy_generation = 0 }
  modify (λ s. record s {
    workspaces = insert workspace_id fresh s.workspaces;
    memberships =
        insert (workspace_id, owner_id)
          (record {
            workspace_id = workspace_id;
            principal_id = owner_id;
            role = owner;
            active = true;
          })
          s.memberships;
  })
  pure fresh

-- `IdentityDirectory.add_member`
unfoldable pub add_member : String → String → String → WorkspaceRole → IdentityCommand Membership
unfolding require_role principal bump
add_member workspace_id actor_id principal_id role = do
  require_role workspace_id actor_id owner
  found ← principal principal_id
  raise_if (is_owner role && not (is_human found.principal_type)) owner_not_a_bot
  current ← gets (λ s. lookup (workspace_id, principal_id) s.memberships)
  raise_if (is_active current) already_a_member
  let fresh : Membership = record {
    workspace_id = workspace_id;
    principal_id = principal_id;
    role = role;
    active = true;
  }
  modify (λ s. record s { memberships = insert (workspace_id, principal_id) fresh s.memberships })
  generation ← bump workspace_id
  pure fresh

-- `IdentityDirectory.remove_member`
unfoldable pub remove_member : String → String → String → IdentityCommand Unit
unfolding require_role membership bump active_owner_count
remove_member workspace_id actor_id principal_id = do
  require_role workspace_id actor_id owner
  current ← membership workspace_id principal_id
  raise_if (not current.active) not_an_active_member
  count ← gets (λ s. active_owner_count workspace_id s.memberships)
  raise_if (is_owner current.role && leb count 1) last_owner
  modify (λ s. record s {
    memberships =
        insert (workspace_id, principal_id)
          (record {
            workspace_id = workspace_id;
            principal_id = principal_id;
            role = current.role;
            active = false;
          })
          s.memberships;
  })
  generation ← bump workspace_id
  pure tt

-- `IdentityDirectory.grant_resource`
unfoldable pub grant_resource :
    String → String → String → String → String → Bool → Bool → IdentityCommand ResourceGrant
unfolding require_role require_active_member bump
grant_resource workspace_id actor_id resource_id resource_type principal_id read write = do
  require_role workspace_id actor_id owner
  raise_if (not read && write) write_needs_read
  require_active_member workspace_id principal_id
  generation ← bump workspace_id
  let grant : ResourceGrant = record {
    workspace_id = workspace_id;
    resource_id = resource_id;
    resource_type = resource_type;
    principal_id = principal_id;
    read = read;
    write = write;
    generation = generation;
  }
  modify (λ s. record s {
    grants = insert ((workspace_id, resource_type), (resource_id, principal_id)) grant s.grants;
  })
  pure grant

-- `IdentityDirectory.revoke_resource`
unfoldable pub revoke_resource : String → String → String → String → String → IdentityCommand ℕ
unfolding require_role bump
revoke_resource workspace_id actor_id resource_type resource_id principal_id = do
  require_role workspace_id actor_id owner
  modify (λ s. record s {
    grants = remove ((workspace_id, resource_type), (resource_id, principal_id)) s.grants;
  })
  bump workspace_id

-- what a grant allows
abbrev pub allows : Option ResourceGrant → Bool → Bool
allows none write = false
allows (some grant) write = grant.read && (not write || grant.write)

-- `IdentityDirectory.can_access`
unfoldable pub can_access : String → String → String → String → Bool → Directory → Bool
unfolding is_active_member
can_access workspace_id principal_id resource_type resource_id write s =
    is_active_member workspace_id principal_id s
    && allows (lookup ((workspace_id, resource_type), (resource_id, principal_id)) s.grants) write

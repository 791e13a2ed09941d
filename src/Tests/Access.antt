-- ===== src/Tests/Access.antt =====
-- The theorems on the identity directory at small directories.
use grok_bot_data.Prelude.{
  refl, some, List, [], ◌≤◌, ◌≡◌, ◌⊎◌, ◌∷◌, string_eq, pair_eq, nat_eq, option_eq,
}
use grok_bot_data.Prelude.Dict.{lookup, insert}
use grok_bot_data.Identity.Directory.{
  Workspace, new, human, editor, bumped, active_owner_count, workspace, membership, principal,
  require_role, bump, register_principal, create_workspace, add_member, remove_member,
}
use grok_bot_data.Identity.Directory.Policy.{
  IdentityCall, register_call, create_call, add_call, remove_call, step, steps, workspace_owned,
  step_access, SameAccess,
}

-- Ann founds a workspace, and cannot leave it.
abbrev founding : List IdentityCall
founding =
    register_call "ann" human
    ∷ register_call "bob" human
    ∷ create_call "team" "ann"
    ∷ add_call "team" "ann" "bob" editor
    ∷ remove_call "team" "ann" "ann"
    ∷ []

abbrev team : Workspace
team = record { workspace_id = "team"; policy_generation = 1 }

founding-team : lookup "team" (steps founding new).workspaces ≡ some team
unfolding steps step new register_principal create_workspace add_member remove_member require_role
    membership workspace principal bump active_owner_count lookup insert
founding-team = refl

workspace_owned_example : 1 ≤ active_owner_count "team" (steps founding new).memberships
workspace_owned_example = workspace_owned founding "team" team founding-team

step_access_example :
    (lookup "team" (step (remove_call "team" "ann" "bob") (steps founding new)).workspaces
      ≡ some (bumped team))
    ⊎ ((lookup "team" (step (remove_call "team" "ann" "bob") (steps founding new)).workspaces
          ≡ some team)
        × SameAccess "team"
            (steps founding new)
            (step (remove_call "team" "ann" "bob") (steps founding new)))
step_access_example =
    step_access (remove_call "team" "ann" "bob") (steps founding new) "team" team founding-team

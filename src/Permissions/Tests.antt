-- ===== src/Permissions/Tests.antt =====
-- util/permissions.go on concrete inputs.
use revoked.Prelude.{sort, String, ◌≡◌, refl, List, [], ◌∷◌}
use revoked.Permissions.Scopes.{
  all_scopes, scope_workspace_members_create, scope_workspace_members_read,
  scope_workspace_members_update, scope_workspace_members_delete,
}
use revoked.Permissions.Catalogue.{permissions, perm_vault_read, perm_shares_read}
use revoked.Permissions.{
  expand_permissions, surfaces_for, members_only_scopes, known_scopes, unknown_scopes,
  missing_scopes,
}

expand_test :
    expand_permissions (perm_vault_read ∷ "bogus" ∷ perm_shares_read ∷ perm_vault_read ∷ [])
    ≡ ("link:read" ∷ "record:read" ∷ "section:read" ∷ [], "bogus" ∷ [])
unfolding expand_permissions sort permissions
expand_test = refl

surfaces_test :
    surfaces_for ("section:read" ∷ "link:read" ∷ "record:read" ∷ [])
    ≡ perm_vault_read ∷ perm_shares_read ∷ []
unfolding surfaces_for permissions
surfaces_test = refl

sets_test :
    (members_only_scopes ("link:read" ∷ "record:read" ∷ []) ≡ "record:read" ∷ [])
    × (known_scopes ("link:read" ∷ "x" ∷ []) ≡ "link:read" ∷ [])
    × (unknown_scopes ("link:read" ∷ "vault:read" ∷ "x" ∷ []) ≡ "x" ∷ [])
    × (missing_scopes ("a" ∷ []) ("b" ∷ "a" ∷ []) ≡ "b" ∷ [])
unfolding members_only_scopes known_scopes unknown_scopes missing_scopes permissions all_scopes
sets_test = (refl, refl, refl, refl)

abbrev admin_set : List String
admin_set =
    scope_workspace_members_create ∷ scope_workspace_members_read ∷ scope_workspace_members_update
    ∷ scope_workspace_members_delete ∷ []

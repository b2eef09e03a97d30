-- ===== src/Members/Tests.antt =====
-- Grants and the last administrator on concrete rows.
use revoked.Prelude.{
  allowed, refused, ◌≡◌, refl, true, false, none, some, List, [], ◌∷◌, ◌==◌, keep, if◌then◌else◌,
  sort,
}
use revoked.Permissions.{
  expand_permissions, all_permission_keys, missing_scopes, unknown_scopes, known_scopes,
}
use revoked.Permissions.Scopes.{all_scopes}
use revoked.Permissions.Catalogue.{permissions}
use revoked.Permissions.Surfaces.{subset}
use revoked.Members.{
  Member, Auth, permission_escalation, last_admin_protected, Store, role_admin, role_member,
  member_scopes, sync_role, granter_scopes, normalize_permission_grant, update_request,
  delete_request,
}
use revoked.Members.Grants.{normalize-within-granter, update_request_escalates}
use revoked.Members.LastAdmin.{has_admin, write_row, HasUniqueId, update_keeps_admin}

abbrev ann : Member
ann = record {
  id = "m1";
  user = "ann";
  workspace = "w";
  role = role_admin;
  permissions = "workspaceMembers:create" ∷ "link:read" ∷ [];
}

abbrev bob : Member
bob = record {
  id = "m2";
  user = "bob";
  workspace = "w";
  role = role_member;
  permissions = "record:read" ∷ [];
}

abbrev table : List Member
table = ann ∷ bob ∷ []

abbrev app : Store
app = record {
  find_member = λ w u.
      if w == "w"
      then (if u == "ann" then some ann else if u == "bob" then some bob else none)
      else none;
  find_all = λ w. some (keep (λ m. m.workspace == w) table);
}

abbrev promoted : Member
promoted = record bob { permissions = "link:read" ∷ [] }

abbrev by_ann : Auth
by_ann = Auth.user "ann" "w"

steps : Unit {0}
unfolding update_request delete_request normalize_permission_grant expand_permissions sort
    permissions
steps = tt

granted :
    normalize_permission_grant app false by_ann "w" ("shares:read" ∷ [])
    ≡ allowed ("link:read" ∷ [])
unfolding steps missing_scopes unknown_scopes all_scopes known_scopes
granted = refl

tests :
    (normalize_permission_grant app false by_ann "w" ("vault:read" ∷ [])
      ≡ refused permission_escalation)
    × (delete_request app false ann ≡ refused last_admin_protected)
    × (update_request app false by_ann (record ann { permissions = "link:read" ∷ [] })
        ≡ refused last_admin_protected)
unfolding steps missing_scopes unknown_scopes all_scopes known_scopes
tests = (refl, refl, refl)

updated : update_request app false by_ann promoted ≡ allowed promoted
unfolding steps missing_scopes unknown_scopes all_scopes known_scopes
updated = refl

removable : delete_request app false bob ≡ allowed tt
unfolding steps missing_scopes unknown_scopes all_scopes known_scopes
removable = refl

normalize-within-granter_example : subset ("link:read" ∷ []) (granter_scopes app by_ann "w")
normalize-within-granter_example =
    normalize-within-granter app by_ann "w" ("shares:read" ∷ []) granted

abbrev grab : Member
grab = record bob { role = role_admin; permissions = [] }

update_request_escalates_example :
    (update_request app false (Auth.user "bob" "w") grab ≡ allowed grab)
    × (member_scopes (sync_role grab) ≡ (expand_permissions all_permission_keys).0)
update_request_escalates_example = update_request_escalates app (Auth.user "bob" "w") grab refl refl

update_keeps_admin_example : has_admin "w" (write_row (sync_role promoted) table) ≡ true
update_keeps_admin_example =
    update_keeps_admin app table by_ann promoted (λ w. refl) refl refl updated

unique : HasUniqueId bob table
unfolding steps missing_scopes unknown_scopes all_scopes known_scopes
unique = (λ e. cc, (λ e. refl, tt))

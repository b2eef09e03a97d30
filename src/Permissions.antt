-- ===== src/Permissions.antt =====
-- util/permissions.go: permissions as people pick them, and the scopes that are stored.
pub mod Scopes
pub mod Catalogue
pub mod Expand
pub mod Sets
pub mod Surfaces
mod Tests
use revoked.Prelude.{
  String, Bool, true, false, not, ◌&&◌, Option, none, some, List, [], ◌∷◌, ◌++◌, ◌==◌, contains,
  sort, all, keep, first, if◌then◌else◌, map,
}
use Scopes.{all_scopes}
use Catalogue.{Permission, permissions, admin_permissions}

-- The loops of `MembersOnlyScopes`; `out` is the result so far.
pub collect_scopes : List String → List String → List String → List String
collect_scopes scopes [] out = out
collect_scopes scopes (s ∷ more) out =
    collect_scopes scopes more
      (if contains scopes s && not (contains out s) then out ++ s ∷ [] else out)

pub members_only_from : List String → List Permission → List String → List String
members_only_from scopes [] out = out
members_only_from scopes (p ∷ more) out =
    members_only_from scopes more
      (if p.members_only then collect_scopes scopes p.scopes out else out)

-- `MembersOnlyScopes`
unfoldable pub members_only_scopes : List String → List String
unfolding members_only_from collect_scopes
members_only_scopes scopes = members_only_from scopes permissions []

-- `AllPermissionKeys`
unfoldable pub all_permission_keys : List String
all_permission_keys = map (λ p. p.key) permissions

-- `PermissionByKey`; the flag of the source is `none` or `some`.
unfoldable pub permission_by_key : String → Option Permission
permission_by_key key = first (λ p. p.key == key) permissions

-- The state of the loop of `ExpandPermissions`; `seen` is the map's keys.
pub record Expansion : Type 0 where
  pub seen : List String
  pub scopes : List String
  pub unknown : List String

-- The body of the inner loop.
pub add_scope : String → Expansion → Expansion
add_scope s st =
    if contains st.seen s
    then st
    else record st { seen = s ∷ st.seen; scopes = st.scopes ++ s ∷ [] }

pub add_scopes : List String → Expansion → Expansion
add_scopes [] st = st
add_scopes (s ∷ more) st = add_scopes more (add_scope s st)

pub expand_key : String → Option Permission → Expansion → Expansion
expand_key key none st = record st { unknown = st.unknown ++ key ∷ [] }
expand_key key (some perm) st = add_scopes perm.scopes st

pub expand_from : List String → Expansion → Expansion
expand_from [] st = st
expand_from (key ∷ keys) st = expand_from keys (expand_key key (permission_by_key key) st)

-- `ExpandPermissions`
unfoldable pub expand_permissions : List String → List String × List String
unfolding expand_from expand_key add_scopes add_scope permission_by_key
expand_permissions keys =
    let st = expand_from keys (record { seen = []; scopes = []; unknown = [] }) in
    (sort st.scopes, st.unknown)

-- The test of `SurfacesFor` on one permission.
pub complete : List String → Permission → Bool
complete scopes p = elim p.scopes [ [] ↦ false | _ ∷ _ ↦ all (contains scopes) p.scopes ]

-- `SurfacesFor`
unfoldable pub surfaces_for : List String → List String
unfolding complete
surfaces_for scopes = map (λ p. p.key) (keep (complete scopes) permissions)

-- The loop of `IsAdminScopeSet`.
pub covers : List String → Option Permission → Bool
covers scopes none = false
covers scopes (some p) = all (contains scopes) p.scopes

-- `IsAdminScopeSet`
unfoldable pub is_admin_scope_set : List String → Bool
unfolding covers permission_by_key
is_admin_scope_set scopes = all (λ key. covers scopes (permission_by_key key)) admin_permissions

-- `KnownScopes`
unfoldable pub known_scopes : List String → List String
known_scopes values = keep (contains all_scopes) values

abbrev pub is_permission : Option Permission → Bool
is_permission none = false
is_permission (some _) = true

-- `UnknownScopes`
unfoldable pub unknown_scopes : List String → List String
unfolding permission_by_key
unknown_scopes values =
    keep (λ v. if is_permission (permission_by_key v) then false else not (contains all_scopes v))
      values

-- `MissingScopes`
unfoldable pub missing_scopes : List String → List String → List String
missing_scopes granter want = keep (λ s. not (contains granter s)) want

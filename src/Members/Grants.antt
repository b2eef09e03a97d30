-- ===== src/Members/Grants.antt =====
-- What a grant of permissions may give: `normalizePermissionGrant` and the hook on updates.
use revoked.Prelude.{
  allowed, allowed_parts, String, ◌≡◌, refl, true, false, ◌&&◌, ◌||◌, List, [], ◌∷◌, ◌++◌, eq_iff,
  contains, contains-append, any, keep, arith, Bool-cases, inl, inr, contains-here, append-nil,
  Option-cases, sort,
}
use revoked.Permissions.Scopes.{all_scopes}
use revoked.Permissions.Catalogue.{Permission}
use revoked.Permissions.{
  permission_by_key, is_permission, expand_permissions, all_permission_keys, known_scopes,
  unknown_scopes, missing_scopes,
}
use revoked.Permissions.Expand.{
  has_scope, is_unknown, expand_permissions_exact, expand_permissions_unknown,
}
use revoked.Permissions.Surfaces.{subset, nonempty, nonempty_permission}
use revoked.Permissions.Sets.{missing_scopes_iff, contains-keep, keep-nil}
use revoked.Members.{
  Member, Auth, Store, is_nil, role_admin, member_scopes, member_can_administer, sync_role,
  granter_scopes, requested_scopes, normalize_permission_grant, update_request,
}

is_nil-eq : (xs : List String) → is_nil xs ≡ true → xs ≡ []
is_nil-eq [] h = refl
is_nil-eq (x ∷ xs) h = cc

module _ (app : Store) (auth : Auth) (workspace : String) where
  -- Whatever an accepted request of a caller who is no superuser asks for, the scopes that it
  -- gets are held by the granter.
  pub normalize-within-granter :
      (requested : List String) {scopes : List String}
      → normalize_permission_grant app false auth workspace requested ≡ allowed scopes
      → subset scopes (granter_scopes app auth workspace)
  unfolding normalize_permission_grant
  normalize-within-granter requested {scopes} h =
      (missing_scopes_iff (granter_scopes app auth workspace) scopes).0
        (ground (arith, is_nil-eq (missing_scopes (granter_scopes app auth workspace) scopes)))

  requested_of_normalize :
      (requested : List String) {scopes : List String}
      → normalize_permission_grant app false auth workspace requested ≡ allowed scopes
      → requested_scopes app requested ≡ allowed scopes
  unfolding normalize_permission_grant
  requested_of_normalize requested h = ground arith

module _ (app : Store) where
  requested_scopes-parts :
      (requested : List String) {scopes : List String}
      → requested_scopes app requested ≡ allowed scopes
      → (scopes ≡ (expand_permissions requested).0 ++ known_scopes (keep is_unknown requested))
        × (unknown_scopes (keep is_unknown requested) ≡ [])
  unfolding requested_scopes known_scopes unknown_scopes
  requested_scopes-parts requested h =
      rw (← expand_permissions_unknown requested)
        (elim (Bool-cases (is_nil (expand_permissions requested).1)) [
          | inl none_left ↦
              rw (is_nil-eq _ none_left)
                (ground (arith, append-nil (expand_permissions requested).0), refl)
          | inr some_left ↦ (
            ground arith,
            ground (arith, is_nil-eq (unknown_scopes (expand_permissions requested).1)),
          )
        ])

  -- A request goes through only if each of its values is a permission's key or a scope.
  requested-known :
      (requested : List String) {scopes : List String} (v : String)
      → requested_scopes app requested ≡ allowed scopes
      → contains requested v ≡ true
      → (is_permission (permission_by_key v) || contains all_scopes v) ≡ true
  unfolding unknown_scopes
  requested-known requested {scopes} v h m =
      let none_bad = (requested_scopes-parts requested {scopes = scopes} h).1 in
      ground (
        arith,
        contains-keep is_unknown requested v,
        keep-nil _ (keep is_unknown requested) v none_bad,
      )

  -- The scopes that a request is for: those of the permissions whose keys it names, and those that
  -- it names themselves.
  contains-requested_scopes :
      (requested : List String) {scopes : List String} (s : String)
      → requested_scopes app requested ≡ allowed scopes
      → contains scopes s ≡ (
          any (λ key. has_scope s (permission_by_key key)) requested
          || contains (keep is_unknown requested) s && contains all_scopes s)
  unfolding known_scopes
  contains-requested_scopes requested {scopes} s h =
      rw ((requested_scopes-parts requested {scopes = scopes} h).0) (
        ground (
          arith,
          contains-append (expand_permissions requested).0
              (keep (contains all_scopes) (keep is_unknown requested)) s,
          expand_permissions_exact requested s,
          contains-keep (contains all_scopes) (keep is_unknown requested) s,
        ))

first_scope : (p : Permission) → nonempty p ≡ true → (s : String) × (contains p.scopes s ≡ true)
first_scope p h = go p.scopes refl
  where
    go : (l : List String) → p.scopes ≡ l → (s : String) × (contains p.scopes s ≡ true)
    go [] e = ground arith
    go (s ∷ l) e = (s, rw e (contains-here s l))

-- A request that names something asks for at least one scope.
asks_for_something :
    (v : String) (rest : List String)
    → (is_permission (permission_by_key v) || contains all_scopes v) ≡ true
    → (s : String) × ((any (λ key. has_scope s (permission_by_key key)) (v ∷ rest)
          || contains (keep is_unknown (v ∷ rest)) s && contains all_scopes s)
        ≡ true)
asks_for_something v rest h = elim (Option-cases (permission_by_key v)) [
  | inl missing ↦ (v, ground (arith, eq_iff v v))
  | inr (p, found) ↦
      let (s, inside) = first_scope p (nonempty_permission v {p = p} found) in (s, ground arith)
]

member_scopes-named :
    (m : Member) → is_nil m.permissions ≡ false → member_scopes (sync_role m) ≡ m.permissions
unfolding member_scopes sync_role
member_scopes-named m h = ground arith

module _ (app : Store) where
  requested_scopes-ne-nil :
      (requested : List String) {scopes : List String}
      → is_nil requested ≡ false
      → requested_scopes app requested ≡ allowed scopes
      → is_nil scopes ≡ false
  requested_scopes-ne-nil [] h e = cc
  requested_scopes-ne-nil (v ∷ rest) {scopes} h e =
      let known = requested-known app (v ∷ rest) {scopes = scopes} v e (contains-here v rest) in
      let (s, asked) = asks_for_something v rest known in
      ground
        (arith, contains-requested_scopes app (v ∷ rest) {scopes = scopes} s e, is_nil-eq scopes)

  pub update_request-parts :
      (auth : Auth) (m : Member) {m' : Member}
      → update_request app false auth m ≡ allowed m'
      → (scopes : List String) × (normalize_permission_grant app false auth m.workspace
            m.permissions
          ≡ allowed scopes)
        × (m' ≡ record m { permissions = scopes })
  unfolding update_request
  update_request-parts auth m h =
      let (scopes, granted, rest) =
        allowed_parts (normalize_permission_grant app false auth m.workspace m.permissions) _ h in
      (scopes, granted, ground arith)

  -- An accepted update of a caller who is no superuser, if it names permissions, leaves the
  -- member, once the role is derived, with no scope that the granter does not hold.
  pub update_request-within-granter :
      (auth : Auth) (m : Member) {m' : Member}
      → is_nil m.permissions ≡ false
      → update_request app false auth m ≡ allowed m'
      → subset (member_scopes (sync_role m')) (granter_scopes app auth m.workspace)
  update_request-within-granter auth m {m'} named h =
      let (scopes, granted, same) = update_request-parts auth m {m' = m'} h in
      let asked =
        requested_of_normalize app auth m.workspace m.permissions {scopes = scopes} granted in
      let full = requested_scopes-ne-nil m.permissions {scopes = scopes} named asked in
      rw (same, member_scopes-named (record m { permissions = scopes }) full)
        (normalize-within-granter app auth m.workspace m.permissions granted)

  normalize-nil :
      (auth : Auth) (workspace : String)
      → normalize_permission_grant app false auth workspace [] ≡ allowed []
  unfolding normalize_permission_grant requested_scopes expand_permissions missing_scopes sort
  normalize-nil auth workspace = refl

  -- An update that names no permission and asks for the role of an administrator is accepted by
  -- the hook from any caller, and the row then stands for every scope of the catalogue.
  pub update_request_escalates :
      (auth : Auth) (m : Member)
      → m.role ≡ role_admin
      → m.permissions ≡ []
      → (update_request app false auth m ≡ allowed m)
        × (member_scopes (sync_role m) ≡ (expand_permissions all_permission_keys).0)
  unfolding update_request member_can_administer member_scopes sync_role
  update_request_escalates auth m admin none_named =
      let granted = normalize-nil auth m.workspace in
      (
        rw (none_named, granted) (ground (arith, eq_iff m.role role_admin)),
        ground (arith, eq_iff m.role role_admin, eq_iff role_admin role_admin),
      )

-- ===== src/Permissions/Sets.antt =====
-- The checks of util/permissions.go on stored scope sets.
use revoked.Prelude.{
  String, ◌≡◌, refl, Bool, true, false, ◌&&◌, ◌||◌, List, [], ◌∷◌, ◌++◌, eq_iff, contains,
  contains-append, all, keep, arith, ◌∙◌, ◌↔◌, Bool-cases, inl, inr, contains-cons,
}
use revoked.Permissions.Scopes.{
  scope_record_read, scope_section_read, scope_record_create, scope_record_update,
  scope_record_delete, scope_section_create, scope_section_update, scope_section_delete,
  scope_workspace_members_create, scope_workspace_members_read, scope_workspace_members_update,
  scope_workspace_members_delete,
}
use revoked.Permissions.Catalogue.{Permission, permissions, admin_permissions}
use revoked.Permissions.{
  collect_scopes, members_only_from, members_only_scopes, missing_scopes, is_admin_scope_set,
}
use revoked.Permissions.Surfaces.{subset, subset_of_all, all-contains}

contains-collect_scopes :
    (scopes ss out : List String) (s : String)
    → contains (collect_scopes scopes ss out) s
      ≡ (contains out s || contains scopes s && contains ss s)
unfolding collect_scopes
contains-collect_scopes scopes [] out s = ground arith
contains-collect_scopes scopes (x ∷ ss) out s = ground (
  arith,
  contains-collect_scopes scopes ss out s,
  contains-collect_scopes scopes ss (out ++ x ∷ []) s,
  contains-append out (x ∷ []) s,
  eq_iff x s,
)

-- Whether a permission of the list that only members may hold has the scope.
abbrev members_only : List Permission → String → Bool
members_only [] s = false
members_only (p ∷ ps) s = p.members_only && contains p.scopes s || members_only ps s

contains-members_only_from :
    (scopes : List String) (ps : List Permission) (out : List String) (s : String)
    → contains (members_only_from scopes ps out) s
      ≡ (contains out s || contains scopes s && members_only ps s)
unfolding members_only_from
contains-members_only_from scopes [] out s = ground arith
contains-members_only_from scopes (p ∷ ps) out s = ground (
  arith,
  contains-members_only_from scopes ps out s,
  contains-members_only_from scopes ps (collect_scopes scopes p.scopes out) s,
  contains-collect_scopes scopes p.scopes out s,
)

-- The scopes of the vault.
abbrev pub vault_scopes : List String
vault_scopes =
    scope_record_read ∷ scope_section_read ∷ scope_record_create ∷ scope_record_update
    ∷ scope_record_delete ∷ scope_section_create ∷ scope_section_update ∷ scope_section_delete ∷ []

members_only-vault : (s : String) → members_only permissions s ≡ contains vault_scopes s
unfolding permissions
members_only-vault s = ground arith

-- The scopes of a set that only a person may hold are exactly the set's vault scopes.
pub members_only_scopes_exact :
    (scopes : List String) (s : String)
    → contains (members_only_scopes scopes) s ≡ (contains scopes s && contains vault_scopes s)
unfolding members_only_scopes
members_only_scopes_exact scopes s =
    contains-members_only_from scopes permissions [] s ∙ rw (members_only-vault s)

-- A scope set is an administrator's exactly if it has all four scopes on workspace members.
pub is_admin_scope_set_iff :
    (scopes : List String)
    → (is_admin_scope_set scopes ≡ true) ↔ (
        (contains scopes scope_workspace_members_create ≡ true)
        × (contains scopes scope_workspace_members_read ≡ true)
        × (contains scopes scope_workspace_members_update ≡ true)
        × (contains scopes scope_workspace_members_delete ≡ true))
unfolding is_admin_scope_set permissions admin_permissions
is_admin_scope_set_iff scopes = ground arith

missing-nil :
    (granter want : List String)
    → all (contains granter) want ≡ true
    → missing_scopes granter want ≡ []
unfolding missing_scopes
missing-nil granter [] h = refl
missing-nil granter (s ∷ want) h = ground (arith, missing-nil granter want)

all_of_missing :
    (granter want : List String)
    → missing_scopes granter want ≡ []
    → all (contains granter) want ≡ true
unfolding missing_scopes
all_of_missing granter [] h = refl
all_of_missing granter (s ∷ want) h = ground (arith, all_of_missing granter want)

-- No scope is reported missing exactly if the granter holds all that is wanted.
pub missing_scopes_iff :
    (granter want : List String) → (missing_scopes granter want ≡ []) ↔ subset want granter
missing_scopes_iff granter want = (
  λ h. subset_of_all want granter (all_of_missing granter want h),
  λ h. missing-nil granter want (all-contains want granter h),
)

pub contains-keep :
    (t : String → Bool) (xs : List String) (s : String)
    → contains (keep t xs) s ≡ (contains xs s && t s)
contains-keep t [] s = refl
contains-keep t (x ∷ xs) s = ground (arith, contains-keep t xs s, eq_iff x s)

pub keep-nil :
    (t : String → Bool) (xs : List String) (s : String)
    → keep t xs ≡ []
    → contains xs s ≡ true
    → t s ≡ false
keep-nil t [] s e h = cc
keep-nil t (x ∷ xs) s e h = elim (Bool-cases (t x)) [
  | inl kept ↦ cc (rw kept at e)
  | inr dropped ↦ elim (contains-cons x xs s h) [
    | inl same ↦ rw (← same) dropped
    | inr more ↦ keep-nil t xs s (rw dropped at e) more
  ]
]

-- ===== src/Members/LastAdmin.antt =====
-- A workspace that a row names after an update, or named before its deletion, keeps a member who can
-- administer it: the hooks on updates and deletes.
use revoked.Prelude.{
  allowed, allowed_parts, ◌<◌, String, ◌≡◌, refl, Bool, true, false, not, ◌&&◌, some, List, [], ◌∷◌,
  ◌==◌, eq_iff, any, keep, arith, ◌∙◌, if◌then◌else◌, Bool-cases, inl, inr, All, eqb,
}
use revoked.Members.{
  Member, Auth, Store, role_admin, role_member, member_can_administer, sync_role, count_admins,
  workspace_admin_count, update_request, delete_request, normalize_permission_grant,
}
use revoked.Members.Grants.{update_request-parts}

-- Some row of the workspace may bring people into it.
abbrev pub has_admin : String → List Member → Bool
has_admin workspace table = any (λ m. m.workspace == workspace && member_can_administer m) table

-- The table after a row is written, and after rows are taken out.
abbrev pub write_row : Member → List Member → List Member
write_row m [] = []
write_row m (r ∷ rows) = (if r.id == m.id then m else r) ∷ write_row m rows

abbrev pub remove_row : String → List Member → List Member
remove_row id rows = keep (λ r. not (r.id == id)) rows

abbrev pub has_row : String → List Member → Bool
has_row id rows = any (λ r. r.id == id) rows

member_ne_admin : (role_member == role_admin) ≡ false
member_ne_admin = refl

-- Deriving the role changes nothing about who can administer.
sync_role_lem : (m : Member) → member_can_administer (sync_role m) ≡ member_can_administer m
unfolding member_can_administer sync_role
sync_role_lem m = elim (Bool-cases (member_can_administer m)) [
  | inl can ↦ rw can (ground (arith, eq_iff role_admin role_admin, eq_iff m.role role_admin))
  | inr cannot ↦ rw cannot (ground (arith, member_ne_admin))
]

-- Some other row than the one with the identifier can administer.
abbrev other_admin : String → String → List Member → Bool
other_admin workspace id rows =
    any (λ m. m.workspace == workspace && not (m.id == id) && member_can_administer m) rows

other_admin_of_count :
    (workspace id : String) (rows : List Member)
    → (id == "") ≡ false
    → 0 < count_admins id (keep (λ m. m.workspace == workspace) rows)
    → other_admin workspace id rows ≡ true
unfolding count_admins
other_admin_of_count workspace id [] h c = ground arith
other_admin_of_count workspace id (r ∷ rows) h c =
    ground (arith, other_admin_of_count workspace id rows h)

has_admin-write_row_other :
    (m : Member) (rows : List Member) (workspace : String)
    → other_admin workspace m.id rows ≡ true
    → has_admin workspace (write_row m rows) ≡ true
has_admin-write_row_other m [] workspace h = cc
has_admin-write_row_other m (r ∷ rows) workspace h =
    ground (arith, has_admin-write_row_other m rows workspace)

has_admin-write_row_self :
    (m : Member) (rows : List Member)
    → has_row m.id rows ≡ true
    → member_can_administer m ≡ true
    → has_admin m.workspace (write_row m rows) ≡ true
has_admin-write_row_self m [] h a = cc
has_admin-write_row_self m (r ∷ rows) h a =
    ground (arith, has_admin-write_row_self m rows, eq_iff m.workspace m.workspace)

-- What the queries of the hooks return where they see the whole table.
abbrev pub Sees : Store → List Member → Type 0
Sees app table = (w : String) → app.find_all w ≡ some (keep (λ m. m.workspace == w) table)

workspace_admin_count-eq :
    (app : Store) (workspace id : String) (rows : List Member)
    → app.find_all workspace ≡ some rows
    → workspace_admin_count app workspace id ≡ count_admins id rows
unfolding workspace_admin_count
workspace_admin_count-eq app workspace id rows e = rw (e, workspace_admin_count)

other_admin_of_Sees :
    (app : Store) (table : List Member) (workspace id : String)
    → Sees app table
    → (id == "") ≡ false
    → eqb (workspace_admin_count app workspace id) 0 ≡ false
    → other_admin workspace id table ≡ true
other_admin_of_Sees app table workspace id sees named h =
    let rows = keep (λ m. m.workspace == workspace) table in
    let counted = workspace_admin_count-eq app workspace id rows (sees workspace) in
    other_admin_of_count workspace id table named (ground (arith, counted))

update_request-guard :
    (app : Store) (auth : Auth) (m : Member) {m' : Member}
    → update_request app false auth m ≡ allowed m'
    → (not (member_can_administer m') && eqb (workspace_admin_count app m.workspace m.id) 0) ≡ false
unfolding update_request
update_request-guard app auth m {m'} h =
    let (scopes, granted, rest) =
      allowed_parts (normalize_permission_grant app false auth m.workspace m.permissions) _ h in
    ground arith

written_keeps_admin :
    (app : Store) (table : List Member) (n : Member)
    → Sees app table
    → (n.id == "") ≡ false
    → has_row n.id table ≡ true
    → (not (member_can_administer n) && eqb (workspace_admin_count app n.workspace n.id) 0) ≡ false
    → has_admin n.workspace (write_row (sync_role n) table) ≡ true
unfolding sync_role
written_keeps_admin app table n sees named stored guard =
    elim (Bool-cases (member_can_administer n)) [
      | inl can ↦ has_admin-write_row_self (sync_role n) table stored (sync_role_lem n ∙ can)
      | inr cannot ↦
          has_admin-write_row_other (sync_role n) table n.workspace
            (other_admin_of_Sees app table n.workspace n.id sees named (ground arith))
    ]

-- After an accepted update of a stored row by a caller who is no superuser, the workspace that the
-- row then names has a member who can administer it, whatever was asked for, where the query of
-- the workspace's rows answers from the table. The workspace that the row named before is not
-- meant, where the request moves the row.
pub update_keeps_admin :
    (app : Store) (table : List Member) (auth : Auth) (m : Member) {m' : Member}
    → Sees app table
    → (m.id == "") ≡ false
    → has_row m.id table ≡ true
    → update_request app false auth m ≡ allowed m'
    → has_admin m.workspace (write_row (sync_role m') table) ≡ true
update_keeps_admin app table auth m {m'} sees named stored h =
    let (scopes, granted, same) = update_request-parts app auth m {m' = m'} h in
    let guard = update_request-guard app auth m {m' = m'} h in
    rw same (
      written_keeps_admin app table (record m { permissions = scopes }) sees named stored
        (rw same at guard))

other_admin-remove_row :
    (workspace id : String) (rows : List Member)
    → other_admin workspace id rows ≡ true
    → has_admin workspace (remove_row id rows) ≡ true
other_admin-remove_row workspace id [] h = cc
other_admin-remove_row workspace id (r ∷ rows) h =
    ground (arith, other_admin-remove_row workspace id rows)

-- Rows with one identifier agree.
abbrev pub HasUniqueId : Member → List Member → Type 0
HasUniqueId m rows =
    All (λ r. (r.id == m.id) ≡ true → member_can_administer r ≡ member_can_administer m) rows

has_admin-remove_row :
    (m : Member) (workspace : String) (rows : List Member)
    → HasUniqueId m rows
    → member_can_administer m ≡ false
    → has_admin workspace rows ≡ true
    → has_admin workspace (remove_row m.id rows) ≡ true
has_admin-remove_row m workspace [] u a h = cc
has_admin-remove_row m workspace (r ∷ rows) (here, u) a h =
    ground (arith, has_admin-remove_row m workspace rows u, here)

delete_request-guard :
    (app : Store) (m : Member)
    → delete_request app false m ≡ allowed tt
    → (member_can_administer m && eqb (workspace_admin_count app m.workspace m.id) 0) ≡ false
unfolding delete_request
delete_request-guard app m h = ground arith

-- An accepted deletion of a row, by a caller who is no superuser, leaves its workspace with a
-- member who can administer it, if it had one, where ids are unique and the query of the
-- workspace's rows answers from the table.
pub delete_keeps_admin :
    (app : Store) (table : List Member) (m : Member)
    → Sees app table
    → (m.id == "") ≡ false
    → HasUniqueId m table
    → has_admin m.workspace table ≡ true
    → delete_request app false m ≡ allowed tt
    → has_admin m.workspace (remove_row m.id table) ≡ true
delete_keeps_admin app table m sees named unique had h =
    elim (Bool-cases (member_can_administer m)) [
      | inl can ↦ other_admin-remove_row m.workspace m.id table (
          other_admin_of_Sees app table m.workspace m.id sees named
            (ground (arith, delete_request-guard app m h)))
      | inr cannot ↦ has_admin-remove_row m m.workspace table unique cannot had
    ]

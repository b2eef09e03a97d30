-- ===== src/Members.antt =====
-- Who may do what in a workspace: services/invites.go (scopes of members and granters),
-- hooks/workspaceMembers.go and `normalizePermissionGrant` of hooks/invites.go.
pub mod Grants
pub mod LastAdmin
mod Tests
use revoked.Prelude.{
  Verdict, allowed, refused, ◌>>=◌, ◌≡◌, refl, ℕ, zero, suc, ◌+◌, String, Bool, true, false, not,
  ◌&&◌, ◌||◌, Option, none, some, List, [], ◌∷◌, ◌++◌, ◌==◌, contains, length, eqb, leb, keep, any,
  if◌then◌else◌,
}
use revoked.Permissions.Scopes.{scope_workspace_members_create, scope_record_read}
use revoked.Permissions.{
  expand_permissions, all_permission_keys, known_scopes, unknown_scopes, missing_scopes,
}

abbrev pub role_admin : String
role_admin = "admin"

abbrev pub role_member : String
role_member = "member"

abbrev pub maximum_workspace_members : ℕ
maximum_workspace_members = 50

-- A row of the collection workspaceMembers.
pub record Member : Type 0 where
  pub id : String
  pub user : String
  pub workspace : String
  pub role : String
  pub permissions : List String

-- A row of apiKeys, as far as a grant reads it.
pub record ApiKey : Type 0 where
  pub workspace : String
  pub scopes : List String

-- `e.Auth`: the caller's record, by its collection.
pub data Auth : Type 0 where
  anonymous : Auth
  user : (id active_workspace : String) → Auth
  api_key : ApiKey → Auth
  other_collection : Auth

-- The refusals of the hooks.
pub data Refusal : Type 0 where
  forbidden invalid_scope permission_escalation last_admin_protected : Refusal
  duplicate_workspace_member workspace_member_limit_reached query_failed : Refusal

abbrev pub is_nil : List String → Bool
is_nil [] = true
is_nil (_ ∷ _) = false

-- `MemberScopes`
unfoldable pub member_scopes : Member → List String
member_scopes m =
    if m.role == role_admin && is_nil m.permissions
    then (expand_permissions all_permission_keys).0
    else m.permissions

-- `MemberCanAdminister`
unfoldable pub member_can_administer : Member → Bool
member_can_administer m =
    if contains m.permissions scope_workspace_members_create
    then true
    else m.role == role_admin && is_nil m.permissions

-- `MemberCanReadRecords`, on a row that is there
unfoldable pub member_can_read_records : Member → Bool
member_can_read_records m = is_nil m.permissions || contains m.permissions scope_record_read

-- `syncRole`
unfoldable pub sync_role : Member → Member
unfolding member_can_administer
sync_role m = record m { role = if member_can_administer m then role_admin else role_member }

-- The queries of the database that the code makes: the first row with a workspace and a user
-- (`WorkspaceMemberOf`), and all rows of a workspace, where the query may fail.
pub record Store : Type 0 where
  pub find_member : String → String → Option Member
  pub find_all : String → Option (List Member)

-- The loop of `WorkspaceAdminCount`.
pub count_admins : String → List Member → ℕ
unfolding member_can_administer
count_admins excluding [] = 0
count_admins excluding (m ∷ ms) =
    let rest = count_admins excluding ms in
    if not (excluding == "") && m.id == excluding
    then rest
    else if member_can_administer m
    then suc rest
    else rest

module _ (app : Store) where
  -- `GranterScopes` of a caller who is no superuser
  unfoldable pub granter_scopes : Auth → String → List String
  unfolding member_scopes
  granter_scopes anonymous workspace = []
  granter_scopes (api_key k) workspace = if k.workspace == workspace then k.scopes else []
  granter_scopes (user id _) workspace = elim (app.find_member workspace id) [
    | none ↦ []
    | some m ↦ member_scopes m
  ]
  granter_scopes other_collection workspace = []

  -- `WorkspaceAdminCount`
  unfoldable pub workspace_admin_count : String → String → ℕ
  unfolding count_admins
  workspace_admin_count workspace excluding = elim (app.find_all workspace) [
    | none ↦ 0
    | some ms ↦ count_admins excluding ms
  ]

  -- What `normalizePermissionGrant` makes of the keys or scopes that a request asks for.
  unfoldable pub requested_scopes : List String → Verdict Refusal (List String)
  requested_scopes requested =
      let e = expand_permissions requested in
      if is_nil e.1
      then allowed e.0
      else if is_nil (unknown_scopes e.1)
      then allowed (e.0 ++ known_scopes e.1)
      else refused invalid_scope

  -- `normalizePermissionGrant`: the scopes to store
  unfoldable pub normalize_permission_grant :
      Bool → Auth → String → List String → Verdict Refusal (List String)
  unfolding requested_scopes granter_scopes
  normalize_permission_grant superuser auth workspace requested = do
    scopes ← requested_scopes requested
    if superuser
        then allowed scopes
        else if is_nil (missing_scopes (granter_scopes auth workspace) scopes)
        then allowed scopes
        else refused permission_escalation

  -- The hook on update requests; `m` is the row with the request's changes.
  unfoldable pub update_request : Bool → Auth → Member → Verdict Refusal Member
  unfolding normalize_permission_grant workspace_admin_count member_can_administer
  update_request true auth m = allowed m
  update_request false auth m = do
    scopes ← normalize_permission_grant false auth m.workspace m.permissions
    let m' = record m { permissions = scopes }
    if not (member_can_administer m') && eqb (workspace_admin_count m.workspace m.id) 0
        then refused last_admin_protected
        else allowed m'

  -- The hook on delete requests.
  unfoldable pub delete_request : Bool → Member → Verdict Refusal (Unit {0})
  unfolding workspace_admin_count member_can_administer
  delete_request true m = allowed tt
  delete_request false m =
      if member_can_administer m && eqb (workspace_admin_count m.workspace m.id) 0
      then refused last_admin_protected
      else allowed tt

  -- `activeWS` of the hook on create requests
  unfoldable pub active_workspace : Auth → String
  active_workspace (user _ active) = active
  active_workspace (api_key k) = k.workspace
  active_workspace anonymous = ""
  active_workspace other_collection = ""

  pub create_request_in : Bool → Auth → Member → Verdict Refusal Member
  unfolding normalize_permission_grant active_workspace
  create_request_in superuser auth m =
      if m.workspace == "" || not (m.workspace == active_workspace auth)
      then refused forbidden
      else do
        scopes ← normalize_permission_grant superuser auth m.workspace m.permissions
        allowed (record m { permissions = scopes })

  -- The hook on create requests.
  unfoldable pub create_request : Bool → Auth → Member → Verdict Refusal Member
  unfolding create_request_in
  create_request superuser anonymous m = refused forbidden
  create_request superuser (user id active) m = create_request_in superuser (user id active) m
  create_request superuser (api_key k) m = create_request_in superuser (api_key k) m
  create_request superuser other_collection m = create_request_in superuser other_collection m

  abbrev members_count : Option (List Member) → Verdict Refusal ℕ
  members_count none = refused query_failed
  members_count (some ms) = allowed (length ms)

  -- The hook on creates: no duplicates, and at most fifty members. The role is derived first.
  unfoldable pub create : Member → Verdict Refusal Member
  unfolding sync_role
  create m =
      if m.user == "" || m.workspace == ""
      then allowed (sync_role m)
      else elim (app.find_member m.workspace m.user) [
        | some _ ↦ refused duplicate_workspace_member
        | none ↦ do
          count ← members_count (app.find_all m.workspace)
          if leb maximum_workspace_members count
              then refused workspace_member_limit_reached
              else allowed (sync_role m)
      ]

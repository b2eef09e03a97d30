-- ===== src/Access.antt =====
-- Who may write a record, and why a write is refused: util/access.go, hooks/preflight.go.
pub mod Registry
pub mod Declared
pub mod Callers
pub mod Preflight
pub mod Responses
pub mod Tenancy
mod Tests
use revoked.Prelude.{
  String, Bool, true, false, not, ◌&&◌, ◌||◌, Option, none, some, List, [], ◌∷◌, ◌++◌, ◌==◌,
  contains, if◌then◌else◌,
}
use revoked.Members.{Member, role_admin, is_nil}

abbrev pub action_create : String
action_create = "create"

abbrev pub action_update : String
action_update = "update"

abbrev pub action_delete : String
action_delete = "delete"

abbrev pub owner_immutable : String
owner_immutable = "@request.body.user:isset = false"

-- `AccessKind`
pub data AccessKind : Type 0 where
  access_user_self access_workspace_member access_workspace_self access_workspace_admin : AccessKind
  access_workspace_admin_self access_workspace_split_origin : AccessKind

-- `AccessSpec`; its workspace field and its extra clause are read by the rule alone.
pub record AccessSpec : Type 0 where
  pub kind : AccessKind
  pub scope : String
  pub workspace_field : String
  pub extra : String
  pub response_scope : String

-- The records of users and API keys, as far as access reads them.
pub record UserRecord : Type 0 where
  pub id : String
  pub active_workspace : String
  pub active_role : String

pub record KeyRecord : Type 0 where
  pub owner : String
  pub workspace : String
  pub scopes : List String

-- The caller, by the collection of its record.
pub data Caller : Type 0 where
  nobody : Caller
  human : UserRecord → Caller
  key : KeyRecord → Caller
  another : Caller

-- `AccessSubject`
pub record AccessSubject : Type 0 where
  pub caller : Caller
  pub is_superuser : Bool
  pub record_workspace : String
  pub record_user : String
  pub record_is_response : Bool

-- The reasons of a refusal, each with the field it is filed under.
pub data Reason : Type 0 where
  not_authenticated api_key_not_permitted invalid_scope active_workspace_mismatch : Reason
  not_record_owner missing_active_workspace not_workspace_admin not_workspace_member : Reason
  missing_permission : Reason

abbrev pub Errors : Type 0
Errors = List (String × Reason)

abbrev pub kind_eq : AccessKind → AccessKind → Bool
kind_eq access_user_self access_user_self = true
kind_eq access_workspace_member access_workspace_member = true
kind_eq access_workspace_self access_workspace_self = true
kind_eq access_workspace_admin access_workspace_admin = true
kind_eq access_workspace_admin_self access_workspace_admin_self = true
kind_eq access_workspace_split_origin access_workspace_split_origin = true
kind_eq _ _ = false

-- `requiredScope`
unfoldable pub required_scope : AccessSpec → AccessSubject → String
required_scope s subj =
    if kind_eq s.kind access_workspace_split_origin && subj.record_is_response
    then s.response_scope
    else s.scope

-- One reason under a condition.
abbrev pub when : Bool → String → Reason → Errors
when true field reason = (field, reason) ∷ []
when false field reason = []

-- `diagnoseApiKey`
unfoldable pub diagnose_api_key : AccessSpec → AccessSubject → KeyRecord → Errors
unfolding required_scope
diagnose_api_key s subj k =
    if kind_eq s.kind access_user_self || s.scope == ""
    then ("auth", api_key_not_permitted) ∷ []
    else when (not (contains k.scopes (required_scope s subj))) "scopes" invalid_scope
      ++ when (not (subj.record_workspace == "") && not (subj.record_workspace == k.workspace))
          "workspace" active_workspace_mismatch

abbrev pub needs_active_context : AccessKind → Bool
needs_active_context access_workspace_member = true
needs_active_context access_workspace_self = true
needs_active_context access_workspace_split_origin = true
needs_active_context access_workspace_admin_self = true
needs_active_context _ = false

-- What `diagnoseUser` says of the active workspace.
unfoldable pub diagnose_context : AccessSpec → AccessSubject → UserRecord → Errors
diagnose_context s subj u =
    if not (needs_active_context s.kind)
    then []
    else if u.active_workspace == ""
    then ("workspace", missing_active_workspace) ∷ []
    else when
        (not (subj.record_workspace == "") && not (subj.record_workspace == u.active_workspace))
        "workspace" active_workspace_mismatch

-- What `diagnoseUser` says of a member's permissions.
unfoldable pub diagnose_permissions : AccessSpec → AccessSubject → UserRecord → Member → Errors
unfolding required_scope
diagnose_permissions s subj u m =
    if kind_eq s.kind access_workspace_admin
    then (if is_nil m.permissions
        then when (not (m.role == role_admin)) "role" not_workspace_admin
        else when (not (contains m.permissions s.scope)) "permissions" missing_permission)
    else if kind_eq s.kind access_workspace_self || kind_eq s.kind access_workspace_split_origin
    then (if (not (subj.record_user == "") && subj.record_user == u.id) || is_nil m.permissions
        then []
        else when (not (contains m.permissions (required_scope s subj))) "permissions"
            missing_permission)
    else []

-- What `diagnoseUser` says of a record that is another user's.
abbrev pub diagnose_owner : AccessSubject → UserRecord → Errors
diagnose_owner subj u =
    when (not (subj.record_user == "") && not (subj.record_user == u.id)) "user" not_record_owner

-- The query of `WorkspaceMemberOf`: a workspace and a user.
module _ (find_member : String → String → Option Member) where
  -- What `diagnoseUser` says of the membership in the target workspace.
  unfoldable pub diagnose_membership : AccessSpec → AccessSubject → UserRecord → String → Errors
  unfolding diagnose_permissions
  diagnose_membership s subj u target =
      if target == "" then [] else elim (find_member target u.id) [
        | none ↦ ("membership", not_workspace_member) ∷ []
        | some m ↦ diagnose_permissions s subj u m
      ]

  -- `diagnoseUser`
  unfoldable pub diagnose_user : AccessSpec → AccessSubject → UserRecord → Errors
  unfolding diagnose_context diagnose_membership
  diagnose_user s subj u =
      if kind_eq s.kind access_user_self
      then diagnose_owner subj u
      else if kind_eq s.kind access_workspace_admin_self
      then diagnose_context s subj u
        ++ when (not (u.active_role == role_admin)) "role" not_workspace_admin
        ++ diagnose_owner subj u
      else diagnose_context s subj u
        ++ diagnose_membership s subj u
            (if subj.record_workspace == "" then u.active_workspace else subj.record_workspace)

  -- `Diagnose`, on a caller
  unfoldable pub diagnose_caller : AccessSpec → AccessSubject → Caller → Errors
  unfolding diagnose_api_key diagnose_user
  diagnose_caller s subj nobody = ("auth", not_authenticated) ∷ []
  diagnose_caller s subj (key k) = diagnose_api_key s subj k
  diagnose_caller s subj (human u) = diagnose_user s subj u
  diagnose_caller s subj another = []

  -- `Diagnose`
  unfoldable pub diagnose : AccessSpec → AccessSubject → Errors
  unfolding diagnose_caller
  diagnose s subj = if subj.is_superuser then [] else diagnose_caller s subj subj.caller

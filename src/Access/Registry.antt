-- ===== src/Access/Registry.antt =====
-- Who may write what: util/accessregistry.go.
use revoked.Prelude.{String, ◌&&◌, Option, none, some, List, [], ◌∷◌, ◌==◌, if◌then◌else◌}
use revoked.Permissions.Scopes.{
  scope_attestation_create, scope_attestation_delete, scope_attestation_update,
  scope_contact_create, scope_contact_delete, scope_contact_update, scope_identity_create,
  scope_identity_delete, scope_identity_update, scope_link_create, scope_link_delete,
  scope_link_update, scope_notification_delete, scope_notification_update, scope_record_create,
  scope_record_delete, scope_record_update, scope_request_create, scope_request_delete,
  scope_request_update, scope_response_delete, scope_response_update, scope_section_create,
  scope_section_delete, scope_section_update, scope_template_create, scope_template_delete,
  scope_template_update, scope_workspace_members_create, scope_workspace_members_delete,
  scope_workspace_members_update, scope_workspaces_delete, scope_workspaces_update,
}
use revoked.Access.{
  AccessSpec, access_user_self, access_workspace_self, access_workspace_admin,
  access_workspace_admin_self, access_workspace_split_origin, owner_immutable, action_create,
  action_update, action_delete, AccessKind,
}

-- An entry of the table: a collection, an action and its requirement.
pub record Entry : Type 0 where
  pub collection : String
  pub action : String
  pub spec : AccessSpec

abbrev entry : String → String → AccessKind → String → String → String → String → Entry
entry collection action kind scope workspace_field extra response_scope = record {
  collection = collection;
  action = action;
  spec = record {
    kind = kind;
    scope = scope;
    workspace_field = workspace_field;
    extra = extra;
    response_scope = response_scope;
  };
}

-- `CollectionAccess`
unfoldable pub collection_access : List Entry
collection_access =
    entry "records" action_create access_workspace_self scope_record_create "" "" ""
    ∷ entry "records" action_update access_workspace_split_origin scope_record_update "" ""
        scope_response_update
    ∷ entry "records" action_delete access_workspace_split_origin scope_record_delete "" ""
        scope_response_delete
    ∷ entry "sections" action_create access_workspace_self scope_section_create "" "" ""
    ∷ entry "sections" action_update access_workspace_split_origin scope_section_update "" ""
        scope_response_update
    ∷ entry "sections" action_delete access_workspace_split_origin scope_section_delete "" ""
        scope_response_delete
    ∷ entry "links" action_create access_workspace_self scope_link_create "" "" ""
    ∷ entry "links" action_update access_workspace_self scope_link_update "" "" ""
    ∷ entry "links" action_delete access_workspace_self scope_link_delete "" "" ""
    ∷ entry "requests" action_create access_workspace_self scope_request_create "" "" ""
    ∷ entry "requests" action_update access_workspace_self scope_request_update "" "" ""
    ∷ entry "requests" action_delete access_workspace_self scope_request_delete "" "" ""
    ∷ entry "identities" action_create access_workspace_self scope_identity_create "" "" ""
    ∷ entry "identities" action_update access_workspace_self scope_identity_update "" "" ""
    ∷ entry "identities" action_delete access_workspace_self scope_identity_delete "" "" ""
    ∷ entry "notifications" action_update access_workspace_self scope_notification_update "" "" ""
    ∷ entry "notifications" action_delete access_workspace_self scope_notification_delete "" "" ""
    ∷ entry "templates" action_create access_workspace_admin scope_template_create "" "" ""
    ∷ entry "templates" action_update access_workspace_admin scope_template_update "" "" ""
    ∷ entry "templates" action_delete access_workspace_admin scope_template_delete "" "" ""
    ∷ entry "workspaces" action_update access_workspace_admin scope_workspaces_update "id" "" ""
    ∷ entry "workspaces" action_delete access_workspace_admin scope_workspaces_delete "id" "" ""
    ∷ entry "workspaceMembers" action_create access_workspace_admin scope_workspace_members_create
        "@request.body.workspace" "" ""
    ∷ entry "workspaceMembers" action_update access_workspace_admin scope_workspace_members_update
        "" "" ""
    ∷ entry "workspaceMembers" action_delete access_workspace_admin scope_workspace_members_delete
        "" "" ""
    ∷ entry "invites" action_create access_workspace_admin scope_workspace_members_create "" "" ""
    ∷ entry "invites" action_update access_workspace_admin scope_workspace_members_create "" "" ""
    ∷ entry "invites" action_delete access_workspace_admin scope_workspace_members_create "" "" ""
    ∷ entry "apiKeys" action_create access_workspace_admin_self "" "" "" ""
    ∷ entry "apiKeys" action_delete access_user_self "" "" "" ""
    ∷ entry "bookmarks" action_create access_user_self "" "" "" ""
    ∷ entry "bookmarks" action_update access_user_self "" "" owner_immutable ""
    ∷ entry "bookmarks" action_delete access_user_self "" "" "" ""
    ∷ entry "bookmarkGroups" action_create access_user_self "" "" "" ""
    ∷ entry "bookmarkGroups" action_update access_user_self "" "" owner_immutable ""
    ∷ entry "bookmarkGroups" action_delete access_user_self "" "" "" ""
    ∷ entry "reminders" action_create access_user_self "" "" "" ""
    ∷ entry "reminders" action_update access_user_self "" "" owner_immutable ""
    ∷ entry "reminders" action_delete access_user_self "" "" "" ""
    ∷ entry "attestations" action_create access_workspace_admin scope_attestation_create "" "" ""
    ∷ entry "attestations" action_update access_workspace_admin scope_attestation_update "" "" ""
    ∷ entry "attestations" action_delete access_workspace_admin scope_attestation_delete "" "" ""
    ∷ entry "credentials" action_delete access_user_self "" "" "" ""
    ∷ entry "attestationChecks" action_delete access_user_self "" "" "" ""
    ∷ entry "contacts" action_create access_workspace_self scope_contact_create "" "" ""
    ∷ entry "contacts" action_update access_workspace_self scope_contact_update "" "" ""
    ∷ entry "contacts" action_delete access_workspace_self scope_contact_delete "" "" ""
    ∷ entry "contactBlocks" action_create access_user_self "" "" "" ""
    ∷ entry "contactBlocks" action_delete access_user_self "" "" "" ""
    ∷ []

-- `AccessSpecFor`, over the entries of a table
unfoldable pub spec_among : List Entry → String → String → Option AccessSpec
spec_among [] collection action = none
spec_among (e ∷ es) collection action =
    let rest = spec_among es collection action in
    if e.collection == collection && e.action == action then some e.spec else rest

-- `AccessSpecFor`
unfoldable pub access_spec_for : String → String → Option AccessSpec
unfolding spec_among collection_access
access_spec_for = spec_among collection_access

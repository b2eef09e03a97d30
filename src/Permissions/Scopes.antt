-- ===== src/Permissions/Scopes.antt =====
-- util/scopes.go: the scopes that an API key or a membership may hold.
use Prim.Native.String.{String}
use mathlib.Core.List.{List, [], ◌∷◌}

abbrev pub scope_record_read : String
scope_record_read = "record:read"

abbrev pub scope_record_create : String
scope_record_create = "record:create"

abbrev pub scope_record_update : String
scope_record_update = "record:update"

abbrev pub scope_record_delete : String
scope_record_delete = "record:delete"

abbrev pub scope_response_read : String
scope_response_read = "response:read"

abbrev pub scope_response_update : String
scope_response_update = "response:update"

abbrev pub scope_response_delete : String
scope_response_delete = "response:delete"

abbrev pub scope_section_read : String
scope_section_read = "section:read"

abbrev pub scope_section_create : String
scope_section_create = "section:create"

abbrev pub scope_section_update : String
scope_section_update = "section:update"

abbrev pub scope_section_delete : String
scope_section_delete = "section:delete"

abbrev pub scope_workspaces_read : String
scope_workspaces_read = "workspaces:read"

abbrev pub scope_workspaces_create : String
scope_workspaces_create = "workspaces:create"

abbrev pub scope_workspaces_update : String
scope_workspaces_update = "workspaces:update"

abbrev pub scope_workspaces_delete : String
scope_workspaces_delete = "workspaces:delete"

abbrev pub scope_workspace_members_read : String
scope_workspace_members_read = "workspaceMembers:read"

abbrev pub scope_workspace_members_create : String
scope_workspace_members_create = "workspaceMembers:create"

abbrev pub scope_workspace_members_update : String
scope_workspace_members_update = "workspaceMembers:update"

abbrev pub scope_workspace_members_delete : String
scope_workspace_members_delete = "workspaceMembers:delete"

abbrev pub scope_template_read : String
scope_template_read = "template:read"

abbrev pub scope_template_create : String
scope_template_create = "template:create"

abbrev pub scope_template_update : String
scope_template_update = "template:update"

abbrev pub scope_template_delete : String
scope_template_delete = "template:delete"

abbrev pub scope_link_read : String
scope_link_read = "link:read"

abbrev pub scope_link_create : String
scope_link_create = "link:create"

abbrev pub scope_link_update : String
scope_link_update = "link:update"

abbrev pub scope_link_delete : String
scope_link_delete = "link:delete"

abbrev pub scope_identity_read : String
scope_identity_read = "identity:read"

abbrev pub scope_identity_create : String
scope_identity_create = "identity:create"

abbrev pub scope_identity_update : String
scope_identity_update = "identity:update"

abbrev pub scope_identity_delete : String
scope_identity_delete = "identity:delete"

abbrev pub scope_request_read : String
scope_request_read = "request:read"

abbrev pub scope_request_create : String
scope_request_create = "request:create"

abbrev pub scope_request_update : String
scope_request_update = "request:update"

abbrev pub scope_request_delete : String
scope_request_delete = "request:delete"

abbrev pub scope_notification_read : String
scope_notification_read = "notification:read"

abbrev pub scope_notification_update : String
scope_notification_update = "notification:update"

abbrev pub scope_notification_delete : String
scope_notification_delete = "notification:delete"

abbrev pub scope_attestation_read : String
scope_attestation_read = "attestation:read"

abbrev pub scope_attestation_create : String
scope_attestation_create = "attestation:create"

abbrev pub scope_attestation_update : String
scope_attestation_update = "attestation:update"

abbrev pub scope_attestation_delete : String
scope_attestation_delete = "attestation:delete"

abbrev pub scope_contact_read : String
scope_contact_read = "contact:read"

abbrev pub scope_contact_create : String
scope_contact_create = "contact:create"

abbrev pub scope_contact_update : String
scope_contact_update = "contact:update"

abbrev pub scope_contact_delete : String
scope_contact_delete = "contact:delete"

abbrev pub scope_webhook_manage : String
scope_webhook_manage = "webhook:manage"

-- `AllScopes`
unfoldable pub all_scopes : List String
all_scopes =
    scope_record_read ∷ scope_record_create ∷ scope_record_update ∷ scope_record_delete
    ∷ scope_response_read ∷ scope_response_update ∷ scope_response_delete ∷ scope_section_read
    ∷ scope_section_create ∷ scope_section_update ∷ scope_section_delete ∷ scope_workspaces_read
    ∷ scope_workspaces_create ∷ scope_workspaces_update ∷ scope_workspaces_delete
    ∷ scope_workspace_members_read ∷ scope_workspace_members_create ∷ scope_workspace_members_update
    ∷ scope_workspace_members_delete ∷ scope_template_read ∷ scope_template_create
    ∷ scope_template_update ∷ scope_template_delete ∷ scope_link_read ∷ scope_link_create
    ∷ scope_link_update ∷ scope_link_delete ∷ scope_identity_read ∷ scope_identity_create
    ∷ scope_identity_update ∷ scope_identity_delete ∷ scope_request_read ∷ scope_request_create
    ∷ scope_request_update ∷ scope_request_delete ∷ scope_notification_read
    ∷ scope_notification_update ∷ scope_notification_delete ∷ scope_attestation_read
    ∷ scope_attestation_create ∷ scope_attestation_update ∷ scope_attestation_delete
    ∷ scope_contact_read ∷ scope_contact_create ∷ scope_contact_update ∷ scope_contact_delete
    ∷ scope_webhook_manage ∷ []

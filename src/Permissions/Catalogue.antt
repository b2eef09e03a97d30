-- ===== src/Permissions/Catalogue.antt =====
-- util/permissions.go: the permission catalogue.
use revoked.Prelude.{String, Bool, true, false, List, [], ◌∷◌}
use revoked.Permissions.Scopes.{
  scope_attestation_create, scope_attestation_delete, scope_attestation_read,
  scope_attestation_update, scope_contact_create, scope_contact_delete, scope_contact_read,
  scope_contact_update, scope_identity_create, scope_identity_delete, scope_identity_read,
  scope_identity_update, scope_link_create, scope_link_delete, scope_link_read, scope_link_update,
  scope_record_create, scope_record_delete, scope_record_read, scope_record_update,
  scope_request_create, scope_request_delete, scope_request_read, scope_request_update,
  scope_response_delete, scope_response_read, scope_response_update, scope_section_create,
  scope_section_delete, scope_section_read, scope_section_update, scope_template_create,
  scope_template_delete, scope_template_read, scope_template_update, scope_webhook_manage,
  scope_workspace_members_create, scope_workspace_members_delete, scope_workspace_members_read,
  scope_workspace_members_update, scope_workspaces_delete, scope_workspaces_read,
  scope_workspaces_update,
}

pub record Permission : Type 0 where
  pub key : String
  pub label : String
  pub description : String
  pub destructive : Bool
  pub members_only : Bool
  pub scopes : List String

abbrev pub perm_vault_read : String
perm_vault_read = "vault:read"

abbrev pub perm_vault_write : String
perm_vault_write = "vault:write"

abbrev pub perm_responses_read : String
perm_responses_read = "responses:read"

abbrev pub perm_responses_manage : String
perm_responses_manage = "responses:manage"

abbrev pub perm_shares_read : String
perm_shares_read = "shares:read"

abbrev pub perm_shares_manage : String
perm_shares_manage = "shares:manage"

abbrev pub perm_requests_read : String
perm_requests_read = "requests:read"

abbrev pub perm_requests_manage : String
perm_requests_manage = "requests:manage"

abbrev pub perm_templates_read : String
perm_templates_read = "templates:read"

abbrev pub perm_templates_manage : String
perm_templates_manage = "templates:manage"

abbrev pub perm_identities_read : String
perm_identities_read = "identities:read"

abbrev pub perm_identities_manage : String
perm_identities_manage = "identities:manage"

abbrev pub perm_attestations_read : String
perm_attestations_read = "attestations:read"

abbrev pub perm_attestations_issue : String
perm_attestations_issue = "attestations:issue"

abbrev pub perm_contacts_read : String
perm_contacts_read = "contacts:read"

abbrev pub perm_contacts_manage : String
perm_contacts_manage = "contacts:manage"

abbrev pub perm_members_read : String
perm_members_read = "members:read"

abbrev pub perm_members_add : String
perm_members_add = "members:add"

abbrev pub perm_members_remove : String
perm_members_remove = "members:remove"

abbrev pub perm_settings_manage : String
perm_settings_manage = "settings:manage"

abbrev pub perm_webhooks_manage : String
perm_webhooks_manage = "webhooks:manage"

-- `Permissions`
unfoldable pub permissions : List Permission
permissions =
    record {
      key = perm_vault_read;
      label = "Read vault";
      description = "View the entries and sections in this workspace's vault.";
      destructive = false;
      members_only = true;
      scopes = scope_record_read ∷ scope_section_read ∷ [];
    }
    ∷ record {
      key = perm_vault_write;
      label = "Manage vault";
      description = "Create, edit and delete vault entries and sections.";
      destructive = false;
      members_only = true;
      scopes =
          scope_record_create ∷ scope_record_update ∷ scope_record_delete ∷ scope_section_create
          ∷ scope_section_update ∷ scope_section_delete ∷ [];
    }
    ∷ record {
      key = perm_responses_read;
      label = "Read collected data";
      description = "View data other people submitted through requests.";
      destructive = false;
      members_only = false;
      scopes = scope_response_read ∷ [];
    }
    ∷ record {
      key = perm_responses_manage;
      label = "Manage collected data";
      description = "Edit or delete data collected through requests.";
      destructive = false;
      members_only = false;
      scopes = scope_response_update ∷ scope_response_delete ∷ [];
    }
    ∷ record {
      key = perm_shares_read;
      label = "View shares";
      description = "See the shares this workspace has issued.";
      destructive = false;
      members_only = false;
      scopes = scope_link_read ∷ [];
    }
    ∷ record {
      key = perm_shares_manage;
      label = "Manage shares";
      description = "Create shares, and pause, revoke or delete them.";
      destructive = false;
      members_only = false;
      scopes = scope_link_create ∷ scope_link_update ∷ scope_link_delete ∷ [];
    }
    ∷ record {
      key = perm_requests_read;
      label = "View requests";
      description = "See the data requests this workspace has issued.";
      destructive = false;
      members_only = false;
      scopes = scope_request_read ∷ [];
    }
    ∷ record {
      key = perm_requests_manage;
      label = "Manage requests";
      description = "Create data requests, and pause, revoke or delete them.";
      destructive = false;
      members_only = false;
      scopes = scope_request_create ∷ scope_request_update ∷ scope_request_delete ∷ [];
    }
    ∷ record {
      key = perm_templates_read;
      label = "View templates";
      description = "See the request templates in this workspace.";
      destructive = false;
      members_only = false;
      scopes = scope_template_read ∷ [];
    }
    ∷ record {
      key = perm_templates_manage;
      label = "Manage templates";
      description = "Create, edit and delete request templates.";
      destructive = false;
      members_only = false;
      scopes = scope_template_create ∷ scope_template_update ∷ scope_template_delete ∷ [];
    }
    ∷ record {
      key = perm_identities_read;
      label = "View identities";
      description = "See the signing identities this workspace uses.";
      destructive = false;
      members_only = false;
      scopes = scope_identity_read ∷ [];
    }
    ∷ record {
      key = perm_identities_manage;
      label = "Manage identities";
      description =
          "Create and remove signing identities. Recipients verify shares and requests against them.";
      destructive = true;
      members_only = false;
      scopes = scope_identity_create ∷ scope_identity_update ∷ scope_identity_delete ∷ [];
    }
    ∷ record {
      key = perm_attestations_read;
      label = "View attestations";
      description =
          "See the attestations this workspace has issued, including what they state and about whom.";
      destructive = false;
      members_only = false;
      scopes = scope_attestation_read ∷ [];
    }
    ∷ record {
      key = perm_attestations_issue;
      label = "Issue attestations";
      description =
          "Sign and revoke statements about other identities in the name of this server's domain. Anything issued here carries the domain's trust.";
      destructive = true;
      members_only = false;
      scopes =
          scope_attestation_create ∷ scope_attestation_update ∷ scope_attestation_delete
          ∷ scope_attestation_read ∷ [];
    }
    ∷ record {
      key = perm_contacts_read;
      label = "View contacts";
      description = "See the people this workspace sends to and asks from.";
      destructive = false;
      members_only = false;
      scopes = scope_contact_read ∷ [];
    }
    ∷ record {
      key = perm_contacts_manage;
      label = "Manage contacts";
      description = "Add, edit and remove the people this workspace sends to and asks from.";
      destructive = false;
      members_only = false;
      scopes = scope_contact_create ∷ scope_contact_update ∷ scope_contact_delete ∷ [];
    }
    ∷ record {
      key = perm_members_read;
      label = "View members";
      description = "See who has access to this workspace.";
      destructive = false;
      members_only = false;
      scopes = scope_workspace_members_read ∷ [];
    }
    ∷ record {
      key = perm_members_add;
      label = "Invite members";
      description =
          "Invite people into this workspace and set their permissions. Holders can extend access to others.";
      destructive = true;
      members_only = false;
      scopes = scope_workspace_members_create ∷ scope_workspace_members_read ∷ [];
    }
    ∷ record {
      key = perm_members_remove;
      label = "Remove members";
      description = "Change member permissions and remove members from the workspace.";
      destructive = true;
      members_only = false;
      scopes =
          scope_workspace_members_update ∷ scope_workspace_members_delete
          ∷ scope_workspace_members_read ∷ [];
    }
    ∷ record {
      key = perm_settings_manage;
      label = "Manage workspace";
      description = "Rename the workspace, change its settings, and delete it.";
      destructive = true;
      members_only = false;
      scopes = scope_workspaces_update ∷ scope_workspaces_read ∷ scope_workspaces_delete ∷ [];
    }
    ∷ record {
      key = perm_webhooks_manage;
      label = "Manage webhooks";
      description = "Send workspace activity to other services and view what was sent.";
      destructive = false;
      members_only = false;
      scopes = scope_webhook_manage ∷ [];
    }
    ∷ []

-- `AdminPermissions`
unfoldable pub admin_permissions : List String
admin_permissions = perm_members_add ∷ perm_members_remove ∷ []

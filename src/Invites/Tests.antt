-- ===== src/Invites/Tests.antt =====
-- An invite of two uses, written by Ann, and its acceptance by Bob.
use revoked.Prelude.{
  sort, ◌+◌, ◌≤◌, ◌≡◌, refl, String, Bool, true, false, none, some, [], ◌∷◌, ◌==◌, all, contains,
  arith, allowed,
}
use revoked.Permissions.{expand_permissions, missing_scopes, unknown_scopes, known_scopes}
use revoked.Permissions.Catalogue.{permissions}
use revoked.Permissions.Scopes.{all_scopes, scope_workspace_members_create, scope_record_read}
use revoked.Members.{
  active_workspace, Member, role_admin, role_member, member_scopes, member_can_administer, create,
  sync_role, Auth, user, granter_scopes, normalize_permission_grant, requested_scopes,
}
use revoked.Links.{status_active, coalesce}
use revoked.Invites.{
  Invite, InviteRow, Attempt, Rows, Account, Faults, refresh_invite_status, take_use,
  claim_invite_use, invite_granted_scopes, first_member, joined, inviter_can_still_invite,
  claim_and_join, turned_away, accept_invite, store_of,
}
use revoked.Permissions.Surfaces.{subset}
use revoked.Features.{features, normalize_features}
use revoked.Invites.Hooks.{
  Draft, listed, create_invite, bind_invite_grant, normalize_invite_features, create_invite-within,
}
use revoked.Invites.Joining.{accept_joins, invite_outlives_authority}
use revoked.Invites.Uses.{let_in, let_in-le, is_settled}

abbrev same_text : String → String → Bool
same_text a b = a == b

abbrev ann : Member
ann = record {
  id = "m";
  user = "ann";
  workspace = "home";
  role = role_admin;
  permissions = scope_workspace_members_create ∷ [];
}

abbrev invite : Invite
invite = record {
  workspace = "home";
  invited_by = "ann";
  email = "";
  role = "";
  status = status_active;
  permissions = scope_record_read ∷ scope_record_read ∷ [];
  expires_at = some 10;
  max_uses = 2;
  use_count = 0;
  features = none;
}

abbrev bob : Account
bob = record { id = "bob"; email = "bob"; features = none }

abbrev faultless : Faults
faultless = record {
  update_fails = false;
  affected_fails = false;
  close_fails = false;
  collection_missing = false;
}

abbrev attempt : Attempt
attempt = record {
  now = 5;
  faults = faultless;
  saves = true;
  id = "n";
  account = bob;
  invite = invite;
}

abbrev row : InviteRow
row = record { use_count = none; max_uses = some 2; status = status_active }

abbrev rows : Rows
rows = record { invite = some row; members = ann ∷ [] }

ops : Unit {0}
unfolding refresh_invite_status take_use claim_invite_use invite_granted_scopes
    inviter_can_still_invite claim_and_join turned_away accept_invite create sync_role
    member_can_administer member_scopes let_in create_invite bind_invite_grant
    normalize_invite_features normalize_features features granter_scopes normalize_permission_grant
    requested_scopes expand_permissions missing_scopes unknown_scopes known_scopes
ops = tt

bob_joins : accept_invite same_text attempt rows ≡ (
  allowed tt,
  record {
    invite = some (record row { use_count = some 1 });
    members =
        ann
        ∷ (record {
          id = "n";
          user = "bob";
          workspace = "home";
          role = role_member;
          permissions = scope_record_read ∷ [];
        })
        ∷ [];
  },
)
unfolding ops
bob_joins = refl

welcomed : (accept_invite same_text attempt rows).0 ≡ allowed tt
unfolding ops
welcomed = refl

accept_joins_example :
    (first_member rows.members "home" "bob" ≡ none)
    × (inviter_can_still_invite rows.members invite ≡ true)
    × ((accept_invite same_text attempt rows).1.members
        ≡ ann ∷ sync_role (joined "n" invite bob) ∷ [])
accept_joins_example = accept_joins same_text attempt rows welcomed

live : (refresh_invite_status 5 invite).error ≡ none
unfolding ops
live = refl

claims : (claim_and_join attempt rows).0 ≡ allowed tt
unfolding ops
claims = refl

lacking : contains (member_scopes ann) scope_record_read ≡ false
unfolding ops
lacking = refl

invite_outlives_authority_example :
    ((accept_invite same_text attempt rows).0 ≡ allowed tt)
    × (contains (joined "n" invite bob).permissions scope_record_read ≡ true)
invite_outlives_authority_example =
    invite_outlives_authority same_text attempt rows ann scope_record_read live refl refl refl refl
      lacking refl claims

settled : all is_settled (attempt ∷ attempt ∷ []) ≡ true
unfolding ops
settled = refl

let_in-le_example :
    coalesce row.use_count + let_in same_text (attempt ∷ attempt ∷ []) rows ≤ coalesce row.max_uses
let_in-le_example =
    let_in-le same_text (attempt ∷ attempt ∷ []) rows row settled refl (omega arith) (omega arith)

abbrev draft : Draft
draft = record {
  workspace = "";
  invited_by = "";
  status = "";
  permissions = scope_workspace_members_create ∷ [];
  features = listed ("tools" ∷ []);
  token_hash = "";
}

abbrev ann_signed_in : Auth
ann_signed_in = user "ann" "home"

abbrev has_home : String → Bool
has_home w = w == "home"

abbrev stored : Draft
stored = record draft {
  workspace = "home";
  invited_by = "ann";
  status = status_active;
  token_hash = "h";
}

created :
    create_invite (store_of (ann ∷ [])) has_home false "h" ann_signed_in draft ≡ allowed stored
unfolding ops active_workspace permissions all_scopes sort
created = refl

create_invite-within_example :
    subset
      (scope_workspace_members_create ∷ [])
      (granter_scopes (store_of (ann ∷ [])) ann_signed_in "home")
    × (has_home "home" ≡ true)
create_invite-within_example =
    create_invite-within (store_of (ann ∷ [])) has_home "h" ann_signed_in draft {d' = stored}
      created

-- ===== src/Access/Tests.antt =====
-- Members, API keys and records of two workspaces (util/access.go, hooks/preflight.go).
use revoked.Prelude.{
  ◌≡◌, ◌≢◌, eq_iff, Bool-cases, subst, refl, inl, inr, String, Option, none, some, [], ◌∷◌, true,
  false, ◌==◌, ◌&&◌, if◌then◌else◌,
}
use revoked.Permissions.Scopes.{scope_record_update, scope_link_create}
use revoked.Members.{Member, role_member}
use revoked.Access.{
  AccessSpec, AccessSubject, human, UserRecord, KeyRecord, access_workspace_admin,
  access_workspace_self, diagnose,
}
use revoked.Access.Registry.{access_spec_for, collection_access, spec_among}
use revoked.Access.Preflight.{
  Existing, patch, preflight, outsider_learns_nothing, subject_of, parse_crud_request,
  belongs_to_workspace,
}
use revoked.Access.Tenancy.{
  NewRecord, Identity, bound, create_record, bind_record, validate_identity_ownership,
  create_record-bound, SignsProperly,
}
use revoked.Access.Responses.{response_unguarded, records_update}

abbrev eve : UserRecord
eve = record { id = "eve"; active_workspace = "w1"; active_role = role_member }

abbrev eve_member : Member
eve_member = record {
  id = "m1";
  user = "eve";
  workspace = "w1";
  role = role_member;
  permissions = scope_record_update ∷ [];
}

abbrev members : String → String → Option Member
members w u = if w == "w1" && u == "eve" then some eve_member else none

abbrev link_create : AccessSpec
link_create = record {
  kind = access_workspace_self;
  scope = scope_link_create;
  workspace_field = "";
  extra = "";
  response_scope = "";
}

abbrev template_create : AccessSpec
template_create = record link_create { kind = access_workspace_admin }

abbrev script : KeyRecord
script = record { owner = "eve"; workspace = "w1"; scopes = scope_link_create ∷ [] }

abbrev subject : AccessSubject
subject = record {
  caller = human eve;
  is_superuser = false;
  record_workspace = "w1";
  record_user = "";
  record_is_response = false;
}

declared : access_spec_for "records" "update" ≡ some records_update
unfolding access_spec_for collection_access spec_among
declared = refl

abbrev answer : Existing
answer = record { id = "r1"; workspace = "w1"; owner = "ann"; is_response = true }

abbrev foreign : Existing
foreign = record { id = "r2"; workspace = "w2"; owner = "bob"; is_response = false }

abbrev only : Existing → String → String → Option Existing
only e collection id = some e

foreign_outside :
    (collection : String)
    → belongs_to_workspace members (subject_of (human eve) false collection foreign) ≡ false
unfolding belongs_to_workspace
foreign_outside collection = elim (Bool-cases (collection == "workspaces")) [
  | inl a_workspace ↦ rw (belongs_to_workspace, a_workspace) refl
  | inr a_record ↦ rw (belongs_to_workspace, a_record) refl
]

outside :
    (collection action id : String) (e : Existing)
    → parse_crud_request patch ("records" ∷ "records" ∷ "r2" ∷ []) ≡ some (collection, action, id)
    → only foreign collection id ≡ some e
    → belongs_to_workspace members (subject_of (human eve) false collection e) ≡ false
outside collection action id e parsed at =
    subst
      (λ o. elim o as (λ _. Type 0) [
        | none ↦ Unit
        | some x ↦ belongs_to_workspace members (subject_of (human eve) false collection x) ≡ false
      ])
      at (foreign_outside collection)

outsider_learns_nothing_example :
    preflight members (only foreign) (human eve) false "" patch ("records" ∷ "records" ∷ "r2" ∷ [])
    ≡ preflight members (λ _ _. none) (human eve) false "" patch ("records" ∷ "records" ∷ "r2" ∷ [])
outsider_learns_nothing_example =
    outsider_learns_nothing members (only foreign) (human eve) "" patch
      ("records" ∷ "records" ∷ "r2" ∷ []) outside

abbrev ann : String
ann = "ann"

not_ann : ann ≢ eve.id
not_ann e = cc ((eq_iff ann eve.id).1 e)

not_empty : eve.active_workspace ≢ ""
not_empty e = cc e

response_unguarded_example :
    (preflight members (only answer) (human eve) false "" patch ("records" ∷ "records" ∷ "r1" ∷ [])
      ≡ [])
    × (diagnose members records_update
          (record (subject_of (human eve) false "records" answer) { record_is_response = true })
        ≢ [])
response_unguarded_example =
    response_unguarded members (only answer) eve eve_member "" "r1" answer
      (refl, refl, refl, not_empty, not_ann, refl) refl refl refl

abbrev signed : NewRecord
signed = record { user = "ann"; workspace = ""; identity = "i1" }

abbrev identities : String → Option Identity
identities id = if id == "i1" then some (record { workspace = "w1"; is_active = true }) else none

abbrev signed_by_eve : NewRecord
signed_by_eve = record { user = "eve"; workspace = "w1"; identity = "i1" }

created : create_record identities "links" (human eve) signed ≡ bound signed_by_eve
unfolding create_record bind_record validate_identity_ownership
created = refl

create_record-bound_example :
    (signed_by_eve.user ≡ eve.id)
    × (signed_by_eve.workspace ≡ eve.active_workspace)
    × SignsProperly identities signed_by_eve
create_record-bound_example =
    create_record-bound identities "links" eve signed {rec' = signed_by_eve} created

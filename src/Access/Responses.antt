-- ===== src/Access/Responses.antt =====
-- Changing a record that someone answered a request with (hooks/preflight.go, util/access.go).
use revoked.Prelude.{
  ◌≡◌, ◌≢◌, refl, sym, subst, ◌∙◌, String, true, false, Option, none, some, List, [], ◌∷◌, ◌==◌,
  contains, arith, eq_iff, inl, inr,
}
use revoked.Permissions.Scopes.{scope_record_update, scope_response_update}
use revoked.Members.{Member, is_nil}
use revoked.Access.{AccessSpec, human, UserRecord, diagnose, access_workspace_split_origin}
use revoked.Access.Registry.{access_spec_for, collection_access, spec_among}
use revoked.Access.Callers.{diagnose_member_iff}
use revoked.Access.Preflight.{
  preflight-found, Existing, patch, parse_crud_request, belongs_to_workspace, subject_of,
  diagnose_access, preflight,
}

-- The entry of the table for updates of records.
abbrev pub records_update : AccessSpec
records_update = record {
  kind = access_workspace_split_origin;
  scope = scope_record_update;
  workspace_field = "";
  extra = "";
  response_scope = scope_response_update;
}

declared : access_spec_for "records" "update" ≡ some records_update
unfolding access_spec_for collection_access spec_among
declared = refl

parsed :
    (id : String)
    → (id == "") ≡ false
    → parse_crud_request patch ("records" ∷ "records" ∷ id ∷ []) ≡ some ("records", "update", id)
unfolding parse_crud_request
parsed id named = rw named refl

nil_contains : (xs : List String) (s : String) → contains xs s ≡ true → is_nil xs ≡ false
nil_contains [] s h = cc
nil_contains (x ∷ xs) s h = refl

module _ (find_member : String → String → Option Member) where
  -- The member is in the record's workspace, and the record is somebody else's.
  abbrev pub IsVisitor :
      (String → String → Option Existing) → UserRecord → Member → String → Existing → Type 0
  IsVisitor find_record u m id e =
      ((id == "") ≡ false)
      × (find_record "records" id ≡ some e)
      × (e.workspace ≡ u.active_workspace)
      × (u.active_workspace ≢ "")
      × (e.owner ≢ u.id)
      × (find_member u.active_workspace u.id ≡ some m)

  visitor_vault :
      (u : UserRecord) (m : Member) (e : Existing)
      → e.workspace ≡ u.active_workspace
      → u.active_workspace ≢ ""
      → find_member u.active_workspace u.id ≡ some m
      → contains m.permissions scope_record_update ≡ true
      → diagnose find_member records_update (subject_of (human u) false "records" e) ≡ []
  unfolding diagnose
  visitor_vault u m e here active member vault =
      (diagnose_member_iff find_member records_update (subject_of (human u) false "records" e) u
          (inr refl)).1
        ((active, inr here), (m, member, inr (inr vault)))

  visitor_response :
      (u : UserRecord) (m : Member) (e : Existing)
      → e.owner ≢ u.id
      → find_member u.active_workspace u.id ≡ some m
      → contains m.permissions scope_record_update ≡ true
      → contains m.permissions scope_response_update ≡ false
      → diagnose find_member records_update
          (record (subject_of (human u) false "records" e) { record_is_response = true })
        ≢ []
  unfolding diagnose
  visitor_response u m e other member vault no_response h =
      let (_, (m', at, may)) =
        (diagnose_member_iff find_member records_update
            (record (subject_of (human u) false "records" e) { record_is_response = true }) u
            (inr refl)).0
          h in
      let same : some m ≡ some m' = sym member ∙ at in
      let stays : contains m'.permissions scope_response_update ≡ false =
        subst
          (λ o. elim o as (λ _. Type 0) [
            | none ↦ Unit
            | some x ↦ contains x.permissions scope_response_update ≡ false
          ])
          same no_response in
      let full : is_nil m'.permissions ≡ false =
        subst (λ o. elim o as (λ _. Type 0) [ none ↦ Unit | some x ↦ is_nil x.permissions ≡ false ])
          same (nil_contains m.permissions scope_record_update vault) in
      elim may [ inl (_, own) ↦ other own | inr (inl old) ↦ cc | inr (inr may_response) ↦ cc ]

  -- A member with the permission to change vault entries, and without the one to change responses,
  -- is told nothing against changing a response that is not theirs, although the declaration,
  -- told that the record is a response, refuses the change.
  pub response_unguarded :
      (find_record : String → String → Option Existing) (u : UserRecord) (m : Member)
      (requested id : String) (e : Existing)
      → IsVisitor find_record u m id e
      → e.is_response ≡ true
      → contains m.permissions scope_record_update ≡ true
      → contains m.permissions scope_response_update ≡ false
      → (preflight find_member find_record
            (human u)
            false
            requested
            patch
            ("records" ∷ "records" ∷ id ∷ [])
          ≡ [])
        × (diagnose find_member records_update (record (subject_of (human u) false "records" e) {
          record_is_response = e.is_response;
        })
            ≢ [])
  unfolding diagnose_access belongs_to_workspace
  response_unguarded find_record u m requested id e (named, at, here, active, other, member)
        response vault no_response =
      let belongs : belongs_to_workspace find_member (subject_of (human u) false "records" e)
          ≡ true =
        ground (arith, eq_iff u.active_workspace "", here, member) in
      let found =
        preflight-found find_member find_record (human u) false requested patch
          ("records" ∷ "records" ∷ id ∷ []) (parsed id named) declared in
      (
        found ∙ rw (diagnose_access, at, belongs) (visitor_vault u m e here active member vault),
        subst
            (λ b.
              diagnose find_member records_update
                (record (subject_of (human u) false "records" e) { record_is_response = b })
              ≢ [])
            (sym response) (visitor_response u m e other member vault no_response),
      )

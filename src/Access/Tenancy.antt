-- ===== src/Access/Tenancy.antt =====
-- Binding a new record to its creator and workspace, and to an identity (hooks/tenancy.go).
use revoked.Prelude.{
  ◌≡◌, ◌⊎◌, inl, inr, String, Bool, true, not, ◌&&◌, ◌||◌, Option, none, some, ◌==◌, contains,
  if◌then◌else◌, arith, eq_iff, Bool-cases, Option-cases, refl, sym, subst,
}
use revoked.Permissions.Scopes.{
  scope_attestation_create, scope_attestation_read, scope_identity_create, scope_identity_read,
  scope_link_create, scope_link_read, scope_notification_read, scope_record_create,
  scope_record_read, scope_request_create, scope_request_read, scope_section_create,
  scope_section_read, scope_template_create, scope_template_read,
}
use revoked.Access.{Caller, nobody, human, key, another, UserRecord}

-- `scopeForCollection`
unfoldable pub scope_for_collection : String → String
scope_for_collection name =
    if name == "records"
    then scope_record_create
    else if name == "sections"
    then scope_section_create
    else if name == "links"
    then scope_link_create
    else if name == "templates"
    then scope_template_create
    else if name == "identities"
    then scope_identity_create
    else if name == "requests"
    then scope_request_create
    else if name == "attestations"
    then scope_attestation_create
    else ""

-- `readScopeForCollection`
unfoldable pub read_scope_for_collection : String → String
read_scope_for_collection name =
    if name == "records"
    then scope_record_read
    else if name == "sections"
    then scope_section_read
    else if name == "links"
    then scope_link_read
    else if name == "templates"
    then scope_template_read
    else if name == "identities"
    then scope_identity_read
    else if name == "requests"
    then scope_request_read
    else if name == "notifications"
    then scope_notification_read
    else if name == "attestations"
    then scope_attestation_read
    else ""

-- The columns of a new record that the hook reads and sets.
pub record NewRecord : Type 0 where
  pub user : String
  pub workspace : String
  pub identity : String

-- An identity, with what `IdentityIsActive` says of it.
pub record Identity : Type 0 where
  pub workspace : String
  pub is_active : Bool

pub data TenancyError : Type 0 where
  authentication_required no_active_workspace lacks_scope workspace_mismatch : TenancyError
  identity_not_found identity_not_owned identity_revoked : TenancyError

-- A refusal, or what goes on.
pub data Bound : Type 0 where
  denied : TenancyError → Bound
  bound : NewRecord → Bound

module _ (find_identity : String → Option Identity) where
  -- `validateIdentityOwnership`
  unfoldable pub validate_identity_ownership : NewRecord → Option TenancyError
  validate_identity_ownership rec =
      if rec.identity == "" then none else elim (find_identity rec.identity) [
        | none ↦ some identity_not_found
        | some i ↦
            if not (i.workspace == rec.workspace)
            then some identity_not_owned
            else if not i.is_active
            then some identity_revoked
            else none
      ]

  -- The tail of the hook, for a user and a workspace.
  unfoldable pub bind_record : String → String → NewRecord → Bound
  unfolding validate_identity_ownership
  bind_record user workspace rec =
      if not (rec.workspace == "") && not (rec.workspace == workspace)
      then denied workspace_mismatch
      else (let rec' = record rec { user = user; workspace = workspace } in
          elim (validate_identity_ownership rec') [ none ↦ bound rec' | some e ↦ denied e ])

  -- The hook on create requests of a collection.
  unfoldable pub create_record : String → Caller → NewRecord → Bound
  unfolding scope_for_collection bind_record
  create_record coll nobody rec = denied authentication_required
  create_record coll (human u) rec =
      if u.active_workspace == ""
      then denied no_active_workspace
      else bind_record u.id u.active_workspace rec
  create_record coll (key k) rec =
      if not (scope_for_collection coll == "")
        && not (contains k.scopes (scope_for_collection coll))
      then denied lacks_scope
      else bind_record k.owner k.workspace rec
  create_record coll another rec = bind_record "" "" rec

  -- The hook on update requests of links and requests.
  unfoldable pub update_bearer : Bool → NewRecord → Option TenancyError
  unfolding validate_identity_ownership
  update_bearer superuser rec = if superuser then none else validate_identity_ownership rec

-- The hook on list requests: whether the caller may read the collection.
unfoldable pub may_list : String → Caller → Bool
unfolding read_scope_for_collection
may_list coll (key k) =
    read_scope_for_collection coll == "" || contains k.scopes (read_scope_for_collection coll)
may_list coll _ = true

module _ (find_identity : String → Option Identity) where
  -- The record has no identity, or an active one of its workspace.
  abbrev pub SignsProperly : NewRecord → Type 0
  SignsProperly rec =
      (rec.identity ≡ "")
      ⊎ ((i : Identity) × (find_identity rec.identity ≡ some i)
          × (i.workspace ≡ rec.workspace)
          × (i.is_active ≡ true))

  validated_signs :
      (rec : NewRecord) → validate_identity_ownership find_identity rec ≡ none → SignsProperly rec
  unfolding validate_identity_ownership
  validated_signs rec h = elim (Bool-cases (rec.identity == "")) [
    | inl unsigned ↦ inl ((eq_iff rec.identity "").0 unsigned)
    | inr signed ↦ elim (Option-cases (find_identity rec.identity)) [
      | inl missing ↦ ground (arith, signed, missing)
      | inr (i, at) ↦
          let same = eq_iff i.workspace rec.workspace in
          inr (i, at, ground (arith, signed, at, same), ground (arith, signed, at))
    ]
  ]

  bind_record-validated :
      (user workspace : String) (rec : NewRecord) {rec' : NewRecord}
      → bind_record find_identity user workspace rec ≡ bound rec'
      → (validate_identity_ownership find_identity rec' ≡ none)
        × (rec'.user ≡ user)
        × (rec'.workspace ≡ workspace)
  unfolding bind_record
  bind_record-validated user workspace rec {rec'} h =
      elim (Option-cases (
        validate_identity_ownership find_identity
          (record rec { user = user; workspace = workspace }))) [
            | inl fine ↦
                let left : rec' ≡ record rec { user = user; workspace = workspace } =
                  ground (arith, fine) in
                subst
                  (λ (r : NewRecord).
                    (validate_identity_ownership find_identity r ≡ none)
                    × (r.user ≡ user)
                    × (r.workspace ≡ workspace))
                  (sym left) (fine, refl, refl)
            | inr (e, bad) ↦ ground (arith, bad)
          ]

  -- A record of a user that goes on to be created is the user's, in their active workspace, and
  -- signs with no identity, or with an active one of that workspace.
  pub create_record-bound :
      (coll : String) (u : UserRecord) (rec : NewRecord) {rec' : NewRecord}
      → create_record find_identity coll (human u) rec ≡ bound rec'
      → (rec'.user ≡ u.id) × (rec'.workspace ≡ u.active_workspace) × SignsProperly rec'
  unfolding create_record
  create_record-bound coll u rec {rec'} h =
      let made : bind_record find_identity u.id u.active_workspace rec ≡ bound rec' =
        ground arith in
      let (fine, owner, place) = bind_record-validated u.id u.active_workspace rec made in
      (owner, place, validated_signs rec' fine)

-- ===== src/Access/Preflight.antt =====
-- Why a write is refused, told only to those inside the record's workspace (hooks/preflight.go).
use revoked.Prelude.{
  ◌≡◌, refl, String, Bool, true, false, not, ◌&&◌, Option, none, some, List, [], ◌∷◌, ◌==◌,
  if◌then◌else◌, Bool-cases, Option-cases, inl, inr,
}
use revoked.Members.{Member}
use revoked.Access.{
  AccessSpec, AccessSubject, Caller, nobody, human, key, another, Errors, diagnose, action_create,
}
use revoked.Access.Registry.{access_spec_for}

-- The fields of a record that the preflight reads.
pub record Existing : Type 0 where
  pub id : String
  pub workspace : String
  pub owner : String
  -- whether it exists because someone answered a request, which the preflight does not read
  pub is_response : Bool

-- `parseCrudRequest`, on the segments of the path after "/api/collections/", cut and split by the
-- standard library: the collection, the action and the record's id.
pub data Method : Type 0 where
  post patch delete other_method : Method

abbrev pub with_id : String → String → String → Option (String × String × String)
with_id action collection id = if id == "" then none else some (collection, action, id)

pub parse_method : Method → String → String → Option (String × String × String)
parse_method post collection id = if not (id == "") then none else some (collection, "create", id)
parse_method patch collection id = with_id "update" collection id
parse_method delete collection id = with_id "delete" collection id
parse_method other_method collection id = none

unfoldable pub parse_crud_request : Method → List String → Option (String × String × String)
unfolding parse_method
parse_crud_request method (collection ∷ records ∷ []) =
    if not (records == "records") then none else parse_method method collection ""
parse_crud_request method (collection ∷ records ∷ id ∷ _) =
    if not (records == "records") then none else parse_method method collection id
parse_crud_request method _ = none

-- The subject of a write to a record that exists.
abbrev pub subject_of : Caller → Bool → String → Existing → AccessSubject
subject_of caller superuser collection e = record {
  caller = caller;
  is_superuser = superuser;
  record_workspace = if collection == "workspaces" then e.id else e.workspace;
  record_user = e.owner;
  record_is_response = false;
}

module _ (find_member : String → String → Option Member) where
  -- `belongsToWorkspace`, on a caller who is no superuser
  abbrev pub is_inside : Caller → String → Bool
  is_inside nobody workspace = false
  is_inside (key k) workspace = k.workspace == workspace
  is_inside (human u) workspace = elim (find_member workspace u.id) [ none ↦ false | some _ ↦ true ]
  is_inside another workspace = false

  -- `belongsToWorkspace`
  unfoldable pub belongs_to_workspace : AccessSubject → Bool
  belongs_to_workspace subj =
      if subj.is_superuser
      then true
      else not (subj.record_workspace == "") && is_inside subj.caller subj.record_workspace

  -- `diagnoseAccess`; `requested` is the workspace that the payload asks for, and `find_record`
  -- the query of a record by its collection and id.
  unfoldable pub diagnose_access :
      (String → String → Option Existing)
      → Caller
      → Bool
      → AccessSpec
      → String
      → String
      → String
      → String
      → Errors
  unfolding diagnose belongs_to_workspace
  diagnose_access find_record caller superuser spec requested collection action id =
      if action == action_create
      then diagnose find_member spec (record {
        caller = caller;
        is_superuser = superuser;
        record_workspace = requested;
        record_user = "";
        record_is_response = false;
      })
      else elim (find_record collection id) [
        | none ↦ []
        | some e ↦
            let subj = subject_of caller superuser collection e in
            if not (belongs_to_workspace subj) then [] else diagnose find_member spec subj
      ]

  -- What a handler lets through to the collection's rule: nothing was said.
  unfoldable pub preflight :
      (String → String → Option Existing) → Caller → Bool → String → Method → List String → Errors
  unfolding parse_crud_request access_spec_for diagnose_access
  preflight find_record caller superuser requested method path =
      elim (parse_crud_request method path) [
        | none ↦ []
        | some (collection, action, id) ↦ elim (access_spec_for collection action) [
          | none ↦ []
          | some spec ↦
              diagnose_access find_record caller superuser spec requested collection action id
        ]
      ]

  -- The preflight of a request that is parsed and declared.
  pub preflight-found :
      (find_record : String → String → Option Existing) (caller : Caller) (superuser : Bool)
      (requested : String) (method : Method) (path : List String) {collection action id : String}
      {spec : AccessSpec}
      → parse_crud_request method path ≡ some (collection, action, id)
      → access_spec_for collection action ≡ some spec
      → preflight find_record caller superuser requested method path
        ≡ diagnose_access find_record caller superuser spec requested collection action id
  unfolding preflight
  preflight-found find_record caller superuser requested method path parsed declared =
      rw (preflight, parsed, declared) refl

  outside_diagnose :
      (find_record : String → String → Option Existing) (caller : Caller) (spec : AccessSpec)
      (requested collection action id : String)
      → ((e : Existing)
          → find_record collection id ≡ some e
          → belongs_to_workspace (subject_of caller false collection e) ≡ false)
      → diagnose_access find_record caller false spec requested collection action id
        ≡ diagnose_access (λ _ _. none) caller false spec requested collection action id
  unfolding diagnose_access
  outside_diagnose find_record caller spec requested collection action id outside =
      elim (Bool-cases (action == action_create)) [
        | inl creates ↦ rw creates refl
        | inr changes ↦ elim (Option-cases (find_record collection id)) [
          | inl missing ↦ rw (changes, missing) refl
          | inr (e, at) ↦ rw (changes, at, outside e at) refl
        ]
      ]

  -- To a caller who is no superuser and outside the workspace of the record that a request names,
  -- the preflight answers as if the record did not exist, whatever the record.
  pub outsider_learns_nothing :
      (find_record : String → String → Option Existing) (caller : Caller) (requested : String)
      (method : Method) (path : List String)
      → ((collection action id : String) (e : Existing)
          → parse_crud_request method path ≡ some (collection, action, id)
          → find_record collection id ≡ some e
          → belongs_to_workspace (subject_of caller false collection e) ≡ false)
      → preflight find_record caller false requested method path
        ≡ preflight (λ _ _. none) caller false requested method path
  unfolding preflight
  outsider_learns_nothing find_record caller requested method path outside =
      elim (Option-cases (parse_crud_request method path)) [
        | inl other ↦ rw (other, preflight) refl
        | inr ((collection, action, id), parsed) ↦
            elim (Option-cases (access_spec_for collection action)) [
              | inl undeclared ↦ rw (parsed, preflight, undeclared) refl
              | inr (spec, declared) ↦
                  let same =
                    outside_diagnose find_record caller spec requested collection action id
                      (λ e. outside collection action id e parsed) in
                  rw (parsed, preflight, declared) same
            ]
      ]

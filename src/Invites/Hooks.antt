-- ===== src/Invites/Hooks.antt =====
-- The hooks on requests that create and update invites: hooks/invites.go.
-- A token is random bytes, of which the hash alone is stored.
use revoked.Prelude.{
  ◌≡◌, sym, ap, subst, String, Bool, true, false, not, List, ◌==◌, if◌then◌else◌, arith, Verdict,
  refused, allowed, ◌>>=◌, allowed_parts, past_guard, same_answer,
}
use revoked.Members.{
  Auth, anonymous, user, Store, Refusal, is_nil, normalize_permission_grant, granter_scopes,
  active_workspace,
}
use revoked.Members.Grants.{normalize-within-granter}
use revoked.Permissions.Surfaces.{subset}
use revoked.Links.{status_active}
use revoked.Features.{normalize_features}

-- A refusal: that of the grant, or one of these hooks.
pub data HookRefusal : Type 0 where
  not_signed_in workspace_not_found field_required unknown_feature : HookRefusal
  grant_refused : Refusal → HookRefusal

-- What the field of features holds: nothing, a list of texts, or something else.
pub data FeatureField : Type 0 where
  unset : FeatureField
  listed : List String → FeatureField
  malformed : FeatureField

-- `normalizeInviteFeatures`
unfoldable pub normalize_invite_features : FeatureField → Verdict HookRefusal FeatureField
unfolding normalize_features
normalize_invite_features unset = allowed unset
normalize_invite_features malformed = refused unknown_feature
normalize_invite_features (listed keys) =
    let n = normalize_features keys in
    if is_nil n.1 then allowed (listed n.0) else refused unknown_feature

-- An invite as a request gives it.
pub record Draft : Type 0 where
  pub workspace : String
  pub invited_by : String
  pub status : String
  pub permissions : List String
  pub features : FeatureField
  pub token_hash : String

abbrev lifted : Verdict Refusal (List String) → Verdict HookRefusal (List String)
lifted (refused why) = refused (grant_refused why)
lifted (allowed scopes) = allowed scopes

module _ (app : Store) where
  -- `bindInviteGrant`
  unfoldable pub bind_invite_grant : Bool → Auth → Draft → String → Verdict HookRefusal Draft
  unfolding normalize_permission_grant normalize_invite_features
  bind_invite_grant superuser auth d workspace =
      if is_nil d.permissions then refused field_required else do
        scopes ← lifted (normalize_permission_grant app superuser auth workspace d.permissions)
        chosen ← normalize_invite_features d.features
        allowed (record d { permissions = scopes; features = chosen })

  -- The workspace that the hook on creates settles on.
  abbrev pub meant_workspace : Auth → Draft → String
  meant_workspace auth d = if d.workspace == "" then active_workspace app auth else d.workspace

  abbrev pub inviter_of : Auth → Draft → String
  inviter_of (user id active) d = id
  inviter_of _ d = d.invited_by

  abbrev is_anonymous : Auth → Bool
  is_anonymous anonymous = true
  is_anonymous _ = false

  abbrev minted : Auth → String → Draft → Draft
  minted auth hash d = record d {
    token_hash = hash;
    status = if d.status == "" then status_active else d.status;
    invited_by = inviter_of auth d;
  }

  -- The hook on requests that create an invite; `hash` is the hash of the new token.
  unfoldable pub create_invite :
      (String → Bool) → Bool → String → Auth → Draft → Verdict HookRefusal Draft
  unfolding bind_invite_grant
  create_invite has_workspace superuser hash auth d =
      if is_anonymous auth
      then refused not_signed_in
      else (let workspace = meant_workspace auth d in
          if not (has_workspace workspace) then refused workspace_not_found else do
            bound ← bind_invite_grant superuser auth (record d { workspace = workspace }) workspace
            allowed (minted auth hash bound))

  -- The hook on requests that update an invite; `d` is the row with the request's changes.
  unfoldable pub update_invite : Bool → Auth → Draft → Verdict HookRefusal Draft
  unfolding bind_invite_grant
  update_invite superuser auth d =
      if superuser then allowed d else bind_invite_grant false auth d d.workspace

  lifted_parts :
      (v : Verdict Refusal (List String)) {scopes : List String}
      → lifted v ≡ allowed scopes
      → v ≡ allowed scopes
  lifted_parts (refused why) h = cc
  lifted_parts (allowed s) h = ap allowed (same_answer h)

  bind_invite_grant-within :
      (auth : Auth) (d : Draft) (workspace : String) {d' : Draft}
      → bind_invite_grant false auth d workspace ≡ allowed d'
      → subset d'.permissions (granter_scopes app auth workspace) × (d'.workspace ≡ d.workspace)
  unfolding bind_invite_grant
  bind_invite_grant-within auth d workspace {d'} h =
      let (_, h) = past_guard (is_nil d.permissions) field_required _ h in
      let (scopes, granted, h) =
        allowed_parts (lifted (normalize_permission_grant app false auth workspace d.permissions)) _
          h in
      let (chosen, _, h) =
        allowed_parts (normalize_invite_features d.features)
          (λ c. allowed (record d { permissions = scopes; features = c })) h in
      let made = same_answer h in
      (
        subst (λ (x : Draft). subset x.permissions (granter_scopes app auth workspace)) made
            (normalize-within-granter app auth workspace d.permissions (
              lifted_parts (normalize_permission_grant app false auth workspace d.permissions)
                granted)),
        sym (ap (λ (x : Draft). x.workspace) made),
      )

  -- An invite that is created by a caller who is no superuser hands out only scopes that the caller
  -- holds in the invite's workspace, which is there.
  pub create_invite-within :
      (has_workspace : String → Bool) (hash : String) (auth : Auth) (d : Draft) {d' : Draft}
      → create_invite has_workspace false hash auth d ≡ allowed d'
      → subset d'.permissions (granter_scopes app auth d'.workspace)
        × (has_workspace d'.workspace ≡ true)
  unfolding create_invite
  create_invite-within has_workspace hash auth d {d'} h =
      let workspace = meant_workspace auth d in
      let (_, h) = past_guard (is_anonymous auth) not_signed_in _ h in
      let (there, h) = past_guard (not (has_workspace workspace)) workspace_not_found _ h in
      let (bound, granted, h) =
        allowed_parts (bind_invite_grant false auth (record d { workspace = workspace }) workspace)
          (λ b. allowed (minted auth hash b)) h in
      let (within, same) =
        bind_invite_grant-within auth (record d { workspace = workspace }) workspace {d' = bound}
          granted in
      subst
        (λ (x : Draft).
          subset x.permissions (granter_scopes app auth x.workspace)
          × (has_workspace x.workspace ≡ true))
        (same_answer h) (rw same (within, ground (arith, there)))

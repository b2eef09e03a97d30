-- ===== src/Access/Callers.antt =====
-- Whom a declaration lets write (util/access.go).
use revoked.Prelude.{
  ◌≡◌, ◌≢◌, refl, sym, ◌∙◌, subst, ◌↔◌, ◌⊎◌, inl, inr, String, Bool, true, false, ◌||◌, Option,
  some, [], ◌∷◌, ◌++◌, ◌==◌, contains, if◌then◌else◌, arith, eq_iff, Bool-cases, Option-cases,
}
use revoked.Members.{Member, role_admin, is_nil}
use revoked.Access.{
  access_user_self, access_workspace_self, access_workspace_admin, access_workspace_split_origin,
  access_workspace_admin_self, AccessSpec, AccessSubject, UserRecord, KeyRecord, required_scope,
  when, kind_eq, diagnose_api_key, diagnose_user, diagnose_context, needs_active_context,
  diagnose_permissions, diagnose_membership, Errors, Reason,
}

when-nil : (b : Bool) (field : String) (reason : Reason) → (when b field reason ≡ []) ↔ (b ≡ false)
when-nil true field reason = (λ h. cc, λ h. cc)
when-nil false field reason = (λ h. refl, λ h. refl)

++-nil : (xs ys : Errors) → ((xs ++ ys) ≡ []) ↔ ((xs ≡ []) × (ys ≡ []))
++-nil [] ys = (λ h. (refl, h), λ h. h.1)
++-nil (x ∷ xs) ys = (λ h. cc, λ h. cc)

-- Nothing is said of an API key's write exactly if the collection takes keys, the key holds the
-- scope that the record asks for, and the record, if it names a workspace, names the key's.
pub diagnose_api_key_iff :
    (s : AccessSpec) (subj : AccessSubject) (k : KeyRecord)
    → (diagnose_api_key s subj k ≡ []) ↔ (
        (kind_eq s.kind access_user_self ≡ false)
        × (s.scope ≢ "")
        × (contains k.scopes (required_scope s subj) ≡ true)
        × ((subj.record_workspace ≡ "") ⊎ (subj.record_workspace ≡ k.workspace)))
unfolding diagnose_api_key
diagnose_api_key_iff s subj k =
    let no_scope = eq_iff s.scope "" in
    let no_workspace = eq_iff subj.record_workspace "" in
    let same_workspace = eq_iff subj.record_workspace k.workspace in
    (
      λ h. (
        ground arith,
        ground (arith, no_scope),
        ground arith,
        ground (arith, no_workspace, same_workspace),
      ),
      λ h. ground (arith, no_scope, no_workspace, same_workspace),
    )

-- The caller's active workspace is one, and is the record's, if the record names one.
abbrev pub InContext : AccessSubject → UserRecord → Type 0
InContext subj u =
    (u.active_workspace ≢ "")
    × ((subj.record_workspace ≡ "") ⊎ (subj.record_workspace ≡ u.active_workspace))

-- A member may write a record that is theirs, or if the grant has the scope that the record asks
-- for, or if the row is from before there were permissions.
abbrev pub MayWrite : AccessSpec → AccessSubject → UserRecord → Member → Type 0
MayWrite s subj u m =
    ((subj.record_user ≢ "") × (subj.record_user ≡ u.id))
    ⊎ (is_nil m.permissions ≡ true)
    ⊎ (contains m.permissions (required_scope s subj) ≡ true)

-- The collections of the workspace, where owning a row is enough.
abbrev IsOwned : AccessSpec → Type 0
IsOwned s =
    (kind_eq s.kind access_user_self ≡ false)
    × (kind_eq s.kind access_workspace_admin_self ≡ false)
    × (kind_eq s.kind access_workspace_admin ≡ false)
    × ((kind_eq s.kind access_workspace_self || kind_eq s.kind access_workspace_split_origin)
        ≡ true)
    × (needs_active_context s.kind ≡ true)

IsOwned-kind :
    (s : AccessSpec)
    → (s.kind ≡ access_workspace_self) ⊎ (s.kind ≡ access_workspace_split_origin)
    → IsOwned s
IsOwned-kind s (inl k) = rw k (refl, refl, refl, refl, refl)
IsOwned-kind s (inr k) = rw k (refl, refl, refl, refl, refl)

diagnose_permissions_iff :
    (s : AccessSpec) (subj : AccessSubject) (u : UserRecord) (m : Member)
    → IsOwned s
    → (diagnose_permissions s subj u m ≡ []) ↔ MayWrite s subj u m
unfolding diagnose_permissions
diagnose_permissions_iff s subj u m owned =
    let no_user = eq_iff subj.record_user "" in
    let same_user = eq_iff subj.record_user u.id in
    (λ h. ground (arith, no_user, same_user), λ h. ground (arith, no_user, same_user))

diagnose_permissions_admin :
    (s : AccessSpec) (subj : AccessSubject) (u : UserRecord) (m : Member)
    → s.kind ≡ access_workspace_admin
    → (diagnose_permissions s subj u m ≡ []) ↔ (
        (is_nil m.permissions ≡ true) × (m.role ≡ role_admin)
        ⊎ (is_nil m.permissions ≡ false) × (contains m.permissions s.scope ≡ true))
unfolding diagnose_permissions
diagnose_permissions_admin s subj u m kind =
    let gated : kind_eq s.kind access_workspace_admin ≡ true = rw kind refl in
    let admin = eq_iff m.role role_admin in
    (λ h. ground (arith, admin, gated), λ h. ground (arith, admin, gated))

module _ (find_member : String → String → Option Member) where
  -- What is said of the context is nothing exactly if the user is in the record's workspace.
  diagnose_context_iff :
      (s : AccessSpec) (subj : AccessSubject) (u : UserRecord)
      → needs_active_context s.kind ≡ true
      → (diagnose_context s subj u ≡ []) ↔ InContext subj u
  unfolding diagnose_context
  diagnose_context_iff s subj u needs =
      let no_active = eq_iff u.active_workspace "" in
      let no_workspace = eq_iff subj.record_workspace "" in
      let same_workspace = eq_iff subj.record_workspace u.active_workspace in
      (
        λ h. (ground (arith, no_active), ground (arith, no_workspace, same_workspace)),
        λ h. ground (arith, no_active, no_workspace, same_workspace),
      )

  -- What is said of the membership is nothing exactly if there is one whose permissions do.
  diagnose_membership_iff :
      (s : AccessSpec) (subj : AccessSubject) (u : UserRecord) (target : String)
      → target ≢ ""
      → (diagnose_membership find_member s subj u target ≡ []) ↔ (
          (m : Member) × (find_member target u.id ≡ some m)
          × (diagnose_permissions s subj u m ≡ []))
  unfolding diagnose_membership
  diagnose_membership_iff s subj u target named =
      let no_target = eq_iff target "" in
      elim (Option-cases (find_member target u.id)) [
        | inl nobody ↦ (λ h. ground (arith, nobody, no_target), λ (m, at, h). cc)
        | inr (m, at) ↦ (
          λ h. (m, at, ground (arith, at, no_target)),
          λ (m', at', h). ground (arith, at, at', no_target, h),
        )
      ]

  diagnose_membership_none :
      (s : AccessSpec) (subj : AccessSubject) (u : UserRecord) (target : String)
      → target ≡ ""
      → diagnose_membership find_member s subj u target ≡ []
  unfolding diagnose_membership
  diagnose_membership_none s subj u target h = rw h refl

  pub diagnose_member_iff :
      (s : AccessSpec) (subj : AccessSubject) (u : UserRecord)
      → (s.kind ≡ access_workspace_self) ⊎ (s.kind ≡ access_workspace_split_origin)
      → (diagnose_user find_member s subj u ≡ []) ↔ (
          InContext subj u
          × ((m : Member) × (find_member u.active_workspace u.id ≡ some m) × MayWrite s subj u m))
  unfolding diagnose_user
  diagnose_member_iff s subj u kind =
      let owned = IsOwned-kind s kind in
      let target =
        if subj.record_workspace == "" then u.active_workspace else subj.record_workspace in
      let context = diagnose_context_iff s subj u owned.4 in
      let said = diagnose_membership find_member s subj u target in
      let split = ++-nil (diagnose_context s subj u) said in
      let whole : diagnose_user find_member s subj u ≡ diagnose_context s subj u ++ said =
        rw (owned.0, owned.1) refl in
      let same : InContext subj u → target ≡ u.active_workspace =
        λ c. ground (arith, eq_iff subj.record_workspace "", c) in
      let member = diagnose_membership_iff s subj u u.active_workspace in
      let allowed = λ (m : Member). diagnose_permissions_iff s subj u m owned in
      (
        λ h.
            let (clear, quiet) = split.0 (sym whole ∙ h) in
            let here = context.0 clear in
            let (m, at, may) =
              (member here.0).0
                (subst (λ t. diagnose_membership find_member s subj u t ≡ []) (same here) quiet) in
            (here, (m, at, (allowed m).0 may)),
        λ (here, (m, at, may)).
            whole
            ∙ split.1 (
              context.1 here,
              subst (λ t. diagnose_membership find_member s subj u t ≡ []) (sym (same here))
                  ((member here.0).1 (m, at, (allowed m).1 may)),
            ),
      )

  -- Nothing is said of a user's write to a collection that a permission governs exactly if no
  -- workspace is named at all, or the user is a member of the workspace that is meant, with the
  -- permission, or as an administrator from before there were permissions.
  pub diagnose_admin_iff :
      (s : AccessSpec) (subj : AccessSubject) (u : UserRecord)
      → s.kind ≡ access_workspace_admin
      → let target =
          if subj.record_workspace == "" then u.active_workspace else subj.record_workspace in
        (diagnose_user find_member s subj u ≡ []) ↔ (
          (target ≡ "")
          ⊎ ((m : Member) × (find_member target u.id ≡ some m)
              × ((is_nil m.permissions ≡ true) × (m.role ≡ role_admin)
                  ⊎ (is_nil m.permissions ≡ false) × (contains m.permissions s.scope ≡ true))))
  unfolding diagnose_user
  diagnose_admin_iff s subj u kind =
      let target =
        if subj.record_workspace == "" then u.active_workspace else subj.record_workspace in
      let said = diagnose_membership find_member s subj u target in
      let whole : diagnose_user find_member s subj u ≡ said = rw kind refl in
      let member = diagnose_membership_iff s subj u target in
      let allowed = λ (m : Member). diagnose_permissions_admin s subj u m kind in
      elim (Bool-cases (target == "")) [
        | inl none_named ↦
            let is_none = (eq_iff target "").0 none_named in
            let quiet : said ≡ [] = diagnose_membership_none s subj u target is_none in
            (λ h. inl is_none, λ h. whole ∙ quiet)
        | inr named ↦
            let is_named : target ≢ "" = λ e. cc ((eq_iff target "").1 e, named) in
            (
              λ h.
                  let (m, at, may) = (member is_named).0 (sym whole ∙ h) in
                  inr (m, at, (allowed m).0 may),
              λ o. elim o [
                | inl none_named ↦ absurd (is_named none_named)
                | inr (m, at, may) ↦ whole ∙ (member is_named).1 (m, at, (allowed m).1 may)
              ],
            )
      ]

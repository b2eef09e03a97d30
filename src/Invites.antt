-- ===== src/Invites.antt =====
-- Accepting an invite to a workspace: services/invites.go, routes/publicInvites.go and
-- hooks/invites.go. `now` is the clock; the token of an invite is found by its hash.
pub mod Hooks
pub mod Joining
pub mod Uses
mod Tests
use revoked.Prelude.{
  ℕ, zero, suc, ◌+◌, String, Bool, true, false, not, ◌&&◌, ◌||◌, Option, none, some, List, [], ◌∷◌,
  ◌++◌, ◌==◌, eqb, ltb, leb, contains, keep, if◌then◌else◌, Verdict, refused, allowed, ◌>>=◌,
}
use revoked.Members.{Member, Store, member_can_administer, create, role_member}
use revoked.Links.{
  Refreshed, Effect, save, is_before, coalesce, status_active, status_revoked, status_expired,
  status_completed,
}

-- An invite as a handler holds it; the features are what `StoredFeatures` reads of it.
pub record Invite : Type 0 where
  pub workspace : String
  pub invited_by : String
  pub email : String
  pub role : String
  pub status : String
  pub permissions : List String
  pub expires_at : Option ℕ
  pub max_uses : ℕ
  pub use_count : ℕ
  pub features : Option (List String)

pub data InviteError : Type 0 where
  invite_not_found invite_revoked invite_expired invite_exhausted invite_wrong_account : InviteError
  already_workspace_member invite_inviter_lost_access not_authenticated : InviteError
  internal_error : InviteError

-- `RefreshInviteStatus`: a write that fails changes neither the answer nor the copy.
unfoldable pub refresh_invite_status : ℕ → Invite → Refreshed InviteError Invite
refresh_invite_status now invite =
    if invite.status == status_revoked
    then record { error = some invite_revoked; left = invite; effects = [] }
    else if invite.status == status_expired
    then record { error = some invite_expired; left = invite; effects = [] }
    else if invite.status == status_completed
    then record { error = some invite_exhausted; left = invite; effects = [] }
    else if is_before invite.expires_at now
    then (let expired = record invite { status = status_expired } in
        record { error = some invite_expired; left = expired; effects = save expired ∷ [] })
    else if ltb 0 invite.max_uses && leb invite.max_uses invite.use_count
    then (let completed = record invite { status = status_completed } in
        record { error = some invite_exhausted; left = completed; effects = save completed ∷ [] })
    else record { error = none; left = invite; effects = [] }

-- The columns of the row that the statements of `ClaimInviteUse` touch; NULL is `none`.
pub record InviteRow : Type 0 where
  pub use_count : Option ℕ
  pub max_uses : Option ℕ
  pub status : String

abbrev pub has_use : InviteRow → Bool
has_use row = eqb (coalesce row.max_uses) 0 || ltb (coalesce row.use_count) (coalesce row.max_uses)

-- The guarded UPDATE, on the row with the invite's id, and how many rows it affects.
unfoldable pub take_use : Option InviteRow → Option InviteRow × ℕ
take_use none = (none, 0)
take_use (some row) =
    if has_use row
    then (some (record row { use_count = some (coalesce row.use_count + 1) }), 1)
    else (some row, 0)

abbrev pub close_row : Option InviteRow → Option InviteRow
close_row none = none
close_row (some row) = some (record row { status = status_completed })

-- Where the database fails: on the UPDATE, on the count of its rows, on closing a spent invite, on
-- finding the collection of members.
pub record Faults : Type 0 where
  pub update_fails : Bool
  pub affected_fails : Bool
  pub close_fails : Bool
  pub collection_missing : Bool

-- `ClaimInviteUse`: whether a use is taken, and the row.
unfoldable pub claim_invite_use : Faults → Invite → Option InviteRow → Bool × Option InviteRow
unfolding take_use
claim_invite_use f invite row =
    if f.update_fails
    then (false, row)
    else (let (row', affected) = take_use row in
        if f.affected_fails || eqb affected 0
        then (false, row')
        else if ltb 0 invite.max_uses
            && leb invite.max_uses (invite.use_count + 1)
            && not f.close_fails
        then (true, close_row row')
        else (true, row'))

-- The loop of `InviteGrantedScopes`.
abbrev pub distinct : List String → List String → List String
distinct out [] = out
distinct out (s ∷ ss) =
    let rest = distinct (out ++ s ∷ []) ss in if contains out s then distinct out ss else rest

-- `InviteGrantedScopes`
unfoldable pub invite_granted_scopes : Invite → List String
invite_granted_scopes invite = distinct [] invite.permissions

-- The account that accepts.
pub record Account : Type 0 where
  pub id : String
  pub email : String
  pub features : Option (List String)

abbrev pub same_member : String → String → Member → Bool
same_member workspace user m = m.workspace == workspace && m.user == user

abbrev pub first_member : List Member → String → String → Option Member
first_member [] workspace user = none
first_member (m ∷ ms) workspace user =
    if same_member workspace user m then some m else first_member ms workspace user

-- The queries on the rows of members.
abbrev pub store_of : List Member → Store
store_of ms = record {
  find_member = first_member ms;
  find_all = λ workspace. some (keep (λ m. m.workspace == workspace) ms);
}

-- `inviterCanStillInvite`
unfoldable pub inviter_can_still_invite : List Member → Invite → Bool
unfolding member_can_administer
inviter_can_still_invite ms invite =
    if invite.invited_by == ""
    then true
    else elim (first_member ms invite.workspace invite.invited_by) [
      | none ↦ false
      | some m ↦ member_can_administer m
    ]

-- The membership that the route saves, with the id that the database gives it.
abbrev pub joined : String → Invite → Account → Member
joined id invite account = record {
  id = id;
  user = account.id;
  workspace = invite.workspace;
  role = if invite.role == "" then role_member else invite.role;
  permissions = invite_granted_scopes invite;
}

-- `adoptInviteFeatures`
unfoldable pub adopt_invite_features : Bool → Invite → Account → Account
adopt_invite_features saves invite account = elim invite.features [
  | none ↦ account
  | some starting ↦ elim account.features [
    | some _ ↦ account
    | none ↦ if saves then record account { features = some starting } else account
  ]
]

-- The rows that an acceptance writes.
pub record Rows : Type 0 where
  pub invite : Option InviteRow
  pub members : List Member

-- Saving the membership, through the hook on creates.
abbrev pub save_member :
    Member → Option InviteRow → List Member → Verdict InviteError (Unit {0}) × Rows
save_member m row ms = elim (create (store_of ms) m) [
  | refused why ↦ (refused internal_error, record { invite = row; members = ms })
  | allowed m' ↦ (allowed tt, record { invite = row; members = ms ++ m' ∷ [] })
]

-- What a refresh writes: the whole copy that the handler holds.
abbrev pub write_back : Bool → List (Effect Invite) → Option InviteRow → Option InviteRow
write_back true (save i ∷ es) (some row) =
    some (record { use_count = some i.use_count; max_uses = some i.max_uses; status = i.status })
write_back saves es row = row

-- One attempt to accept: the time, the faults of the database, whether a refresh is saved, the id
-- of a new membership, the account, and the copy of the invite that the handler read.
pub record Attempt : Type 0 where
  pub now : ℕ
  pub faults : Faults
  pub saves : Bool
  pub id : String
  pub account : Account
  pub invite : Invite

-- Claiming a use, and joining with it.
unfoldable pub claim_and_join : Attempt → Rows → Verdict InviteError (Unit {0}) × Rows
unfolding claim_invite_use create
claim_and_join a rows =
    let claim = claim_invite_use a.faults a.invite rows.invite in
    if not claim.0
    then (refused invite_exhausted, record rows { invite = claim.1 })
    else if a.faults.collection_missing
    then (refused internal_error, record rows { invite = claim.1 })
    else save_member (joined a.id a.invite a.account) claim.1 rows.members

-- The route that accepts an invite: the rows are as they are when it claims a use. `equal_fold`
-- compares addresses without regard to case.
module _ (equal_fold : String → String → Bool) where
  -- The reasons of the route against an invite that may still be spent.
  unfoldable pub turned_away : Attempt → List Member → Option InviteError
  unfolding inviter_can_still_invite
  turned_away a ms =
      if not (a.invite.email == "") && not (equal_fold a.invite.email a.account.email)
      then some invite_wrong_account
      else elim (first_member ms a.invite.workspace a.account.id) [
        | some _ ↦ some already_workspace_member
        | none ↦
            if not (inviter_can_still_invite ms a.invite)
            then some invite_inviter_lost_access
            else none
      ]

  unfoldable pub accept_invite : Attempt → Rows → Verdict InviteError (Unit {0}) × Rows
  unfolding refresh_invite_status turned_away claim_and_join
  accept_invite a rows =
      let refreshed = refresh_invite_status a.now a.invite in
      elim refreshed.error [
        | some why ↦
            (refused why, record rows { invite = write_back a.saves refreshed.effects rows.invite })
        | none ↦ elim (turned_away a rows.members) [
          | some why ↦ (refused why, rows)
          | none ↦ claim_and_join a rows
        ]
      ]

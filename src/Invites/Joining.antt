-- ===== src/Invites/Joining.antt =====
-- Whom an accepted invite lets in, and with what (routes/publicInvites.go, services/invites.go).
use revoked.Prelude.{
  ◌≡◌, refl, sym, ap, subst, ◌∙◌, String, Bool, true, false, ◌||◌, none, some, List, [], ◌∷◌, ◌++◌,
  ◌==◌, eq_iff, contains, contains-append, arith, Bool-cases, Option-cases, inl, inr, Verdict,
  allowed, Verdict-cases,
}
use revoked.Permissions.Scopes.{scope_workspace_members_create}
use revoked.Members.{Member, member_scopes, create, sync_role}
use revoked.Invites.{
  Invite, InviteError, Attempt, Rows, distinct, invite_granted_scopes, first_member, joined,
  store_of, inviter_can_still_invite, accept_invite, refresh_invite_status, claim_and_join,
  turned_away,
}

distinct-contains :
    (out ss : List String) (s : String)
    → contains (distinct out ss) s ≡ (contains out s || contains ss s)
distinct-contains out [] s = ground arith
distinct-contains out (x ∷ ss) s = elim (Bool-cases (contains out x)) [
  | inl seen ↦
      let rest = distinct-contains out ss s in
      elim (Bool-cases (x == s)) [
        | inl same ↦
            let held = subst (λ (y : String). contains out y ≡ true) ((eq_iff x s).0 same) seen in
            ground (arith, rest, held)
        | inr other ↦ ground (arith, rest)
      ]
  | inr unseen ↦
      ground (arith, distinct-contains (out ++ x ∷ []) ss s, contains-append out (x ∷ []) s)
]

create-answer :
    (ms : List Member) (m : Member) {m' : Member}
    → create (store_of ms) m ≡ allowed m'
    → m' ≡ sync_role m
unfolding create
create-answer ms m h = ground arith

claim_and_join-joins :
    (a : Attempt) (rows : Rows)
    → (claim_and_join a rows).0 ≡ allowed tt
    → (claim_and_join a rows).1.members
      ≡ rows.members ++ sync_role (joined a.id a.invite a.account) ∷ []
unfolding claim_and_join
claim_and_join-joins a rows h =
    elim (Verdict-cases (create (store_of rows.members) (joined a.id a.invite a.account))) [
      | inl (why, refusal) ↦ ground (arith, refusal)
      | inr (m', answer) ↦ ground (
        arith,
        answer,
        create-answer rows.members (joined a.id a.invite a.account) {m' = m'} answer,
      )
    ]

module _ (equal_fold : String → String → Bool) where
  turned_away-none :
      (a : Attempt) (ms : List Member)
      → turned_away equal_fold a ms ≡ none
      → (first_member ms a.invite.workspace a.account.id ≡ none)
        × (inviter_can_still_invite ms a.invite ≡ true)
  unfolding turned_away
  turned_away-none a ms h = (ground arith, ground arith)

  accept-live :
      (a : Attempt) (rows : Rows)
      → (accept_invite equal_fold a rows).0 ≡ allowed tt
      → (refresh_invite_status a.now a.invite).error ≡ none
  unfolding accept_invite
  accept-live a rows h = elim (Option-cases (refresh_invite_status a.now a.invite).error) [
    | inl live ↦ live
    | inr (why, over) ↦ ground (arith, over)
  ]

  accept-welcome :
      (a : Attempt) (rows : Rows)
      → (accept_invite equal_fold a rows).0 ≡ allowed tt
      → turned_away equal_fold a rows.members ≡ none
  unfolding accept_invite
  accept-welcome a rows h = elim (Option-cases (turned_away equal_fold a rows.members)) [
    | inl welcome ↦ welcome
    | inr (why, away) ↦ ground (arith, away, accept-live a rows h)
  ]

  pub accept-claims :
      (a : Attempt) (rows : Rows)
      → (accept_invite equal_fold a rows).0 ≡ allowed tt
      → accept_invite equal_fold a rows ≡ claim_and_join a rows
  unfolding accept_invite
  accept-claims a rows h = rw (accept_invite, accept-live a rows h, accept-welcome a rows h) refl

  -- Whoever an acceptance lets in was no member, the inviter, if there is one on record, may still
  -- bring people in, and exactly one membership is added: the account's, in the invite's workspace,
  -- with the invite's scopes and the role that they give.
  pub accept_joins :
      (a : Attempt) (rows : Rows)
      → (accept_invite equal_fold a rows).0 ≡ allowed tt
      → (first_member rows.members a.invite.workspace a.account.id ≡ none)
        × (inviter_can_still_invite rows.members a.invite ≡ true)
        × ((accept_invite equal_fold a rows).1.members
            ≡ rows.members ++ sync_role (joined a.id a.invite a.account) ∷ [])
  accept_joins a rows h =
      let (fresh, able) = turned_away-none a rows.members (accept-welcome a rows h) in
      let claims = accept-claims a rows h in
      (
        fresh,
        able,
        ap (λ (r : Verdict InviteError (Unit {0}) × Rows). r.1.members) claims
            ∙ claim_and_join-joins a rows
                (sym (ap (λ (r : Verdict InviteError (Unit {0}) × Rows). r.0) claims) ∙ h),
      )

-- The scopes that an invite hands out are those it lists.
pub granted_scopes_exact :
    (invite : Invite) (s : String)
    → contains (invite_granted_scopes invite) s ≡ contains invite.permissions s
unfolding invite_granted_scopes
granted_scopes_exact invite s = distinct-contains [] invite.permissions s

-- An invite hands out a scope that its inviter does not hold any more, as long as they may still
-- bring people in: their other scopes are not looked at again.
pub invite_outlives_authority :
    (equal_fold : String → String → Bool) (a : Attempt) (rows : Rows) (inviter : Member)
    (s : String)
    → (refresh_invite_status a.now a.invite).error ≡ none
    → a.invite.email ≡ ""
    → first_member rows.members a.invite.workspace a.account.id ≡ none
    → first_member rows.members a.invite.workspace a.invite.invited_by ≡ some inviter
    → contains inviter.permissions scope_workspace_members_create ≡ true
    → contains (member_scopes inviter) s ≡ false
    → contains a.invite.permissions s ≡ true
    → (claim_and_join a rows).0 ≡ allowed tt
    → ((accept_invite equal_fold a rows).0 ≡ allowed tt)
      × (contains (joined a.id a.invite a.account).permissions s ≡ true)
unfolding accept_invite turned_away inviter_can_still_invite
invite_outlives_authority equal_fold a rows inviter s live anyone fresh on_record able lacks lists
      claimed =
    let able_still : inviter_can_still_invite rows.members a.invite ≡ true =
      ground (arith, on_record, able) in
    (
      rw (accept_invite, live, turned_away, anyone, fresh, able_still) claimed,
      granted_scopes_exact a.invite s ∙ lists,
    )

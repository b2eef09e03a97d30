-- ===== src/Invites/Uses.antt =====
-- How many people one invite lets in, whoever reads it when (services/invites.go).
use revoked.Prelude.{
  ℕ, ◌+◌, ◌≤◌, ◌<◌, ◌≡◌, refl, ap, subst, ◌∙◌, String, Bool, true, false, not, ◌&&◌, Option, none,
  some, List, [], ◌∷◌, all, ltb, leb, arith, Bool-cases, Option-cases, inl, inr, Verdict, refused,
  allowed, Verdict-cases,
}
use revoked.Members.{create}
use revoked.Links.{coalesce, Effect, status_completed}
use revoked.Invites.{
  Invite, InviteError, InviteRow, Attempt, Rows, Faults, store_of, joined, take_use,
  claim_invite_use, claim_and_join, turned_away, accept_invite, refresh_invite_status, write_back,
}

abbrev pub counts : Bool → ℕ
counts true = 1
counts false = 0

abbrev pub admits : Verdict InviteError (Unit {0}) → Bool
admits (refused why) = false
admits (allowed _) = true

-- What one step does to the row of an invite, if it lets in `n` people: the cap stays and holds.
abbrev Step : InviteRow → Option InviteRow → ℕ → Type 0
Step row next n =
    (row' : InviteRow) × (next ≡ some row')
    × (coalesce row'.max_uses ≡ coalesce row.max_uses)
    × (coalesce row'.use_count ≤ coalesce row'.max_uses)
    × (coalesce row.use_count + n ≤ coalesce row'.use_count)

claim-Step :
    (f : Faults) (invite : Invite) (row : InviteRow)
    → 0 < coalesce row.max_uses
    → coalesce row.use_count ≤ coalesce row.max_uses
    → Step row
        (claim_invite_use f invite (some row)).1
        (counts (claim_invite_use f invite (some row)).0)
unfolding claim_invite_use take_use
claim-Step f invite row cap low = elim (Bool-cases f.update_fails) [
  | inl down ↦ (row, ground arith, refl, low, ground arith)
  | inr up ↦ elim (Bool-cases (ltb (coalesce row.use_count) (coalesce row.max_uses))) [
    | inl room ↦
        let taken = record row { use_count = some (coalesce row.use_count + 1) } in
        elim (Bool-cases f.affected_fails) [
          | inl lost ↦ (taken, ground arith, refl, ground arith, ground arith)
          | inr counted ↦
              elim (Bool-cases (
                ltb 0 invite.max_uses
                && leb invite.max_uses (invite.use_count + 1)
                && not f.close_fails)) [
                  | inl last ↦ (
                    record taken { status = status_completed },
                    ground arith,
                    refl,
                    ground arith,
                    ground arith,
                  )
                  | inr others ↦ (taken, ground arith, refl, ground arith, ground arith)
                ]
        ]
    | inr full ↦ (row, ground arith, refl, low, ground arith)
  ]
]

join-row :
    (a : Attempt) (rows : Rows)
    → (claim_and_join a rows).1.invite ≡ (claim_invite_use a.faults a.invite rows.invite).1
unfolding claim_and_join
join-row a rows =
    elim (Verdict-cases (create (store_of rows.members) (joined a.id a.invite a.account))) [
      | inl (why, refusal) ↦ ground (arith, refusal)
      | inr (m', answer) ↦ ground (arith, answer)
    ]

join-counts :
    (a : Attempt) (rows : Rows)
    → counts (admits (claim_and_join a rows).0)
      ≤ counts (claim_invite_use a.faults a.invite rows.invite).0
unfolding claim_and_join
join-counts a rows =
    elim (Verdict-cases (create (store_of rows.members) (joined a.id a.invite a.account))) [
      | inl (why, refusal) ↦ ground (arith, refusal)
      | inr (m', answer) ↦ ground (arith, answer)
    ]

join-Step :
    (a : Attempt) (rows : Rows) (row : InviteRow)
    → rows.invite ≡ some row
    → 0 < coalesce row.max_uses
    → coalesce row.use_count ≤ coalesce row.max_uses
    → Step row (claim_and_join a rows).1.invite (counts (admits (claim_and_join a rows).0))
join-Step a rows row at cap low =
    let (row', next, same, low', step) = claim-Step a.faults a.invite row cap low in
    let fewer =
      subst
        (λ (r : Option InviteRow).
          counts (admits (claim_and_join a rows).0)
          ≤ counts (claim_invite_use a.faults a.invite r).0)
        at (join-counts a rows) in
    (
      row',
      join-row a rows
          ∙ ap (λ (r : Option InviteRow). (claim_invite_use a.faults a.invite r).1) at
          ∙ next,
      same,
      low',
      omega (arith, step, fewer),
    )

abbrev is_empty : List (Effect Invite) → Bool
is_empty [] = true
is_empty (e ∷ es) = false

-- A refresh of the copy has nothing to save: it is settled already, or it can still be spent.
abbrev pub is_settled : Attempt → Bool
is_settled a = is_empty (refresh_invite_status a.now a.invite).effects

kept-row :
    (saves : Bool) (es : List (Effect Invite)) (row : Option InviteRow)
    → is_empty es ≡ true
    → write_back saves es row ≡ row
kept-row true [] none h = refl
kept-row true [] (some row) h = refl
kept-row false [] none h = refl
kept-row false [] (some row) h = refl
kept-row true (e ∷ es) row h = cc
kept-row false (e ∷ es) row h = cc

module _ (equal_fold : String → String → Bool) where
  accept-Step :
      (a : Attempt) (rows : Rows) (row : InviteRow)
      → is_settled a ≡ true
      → rows.invite ≡ some row
      → 0 < coalesce row.max_uses
      → coalesce row.use_count ≤ coalesce row.max_uses
      → Step row
          (accept_invite equal_fold a rows).1.invite
          (counts (admits (accept_invite equal_fold a rows).0))
  unfolding accept_invite
  accept-Step a rows row settled at cap low =
      elim (Option-cases (refresh_invite_status a.now a.invite).error) [
        | inr (why, over) ↦
            rw (accept_invite, over)
              (
                row,
                kept-row a.saves (refresh_invite_status a.now a.invite).effects rows.invite settled
                    ∙ at,
                refl,
                low,
                omega arith,
              )
        | inl live ↦ elim (Option-cases (turned_away equal_fold a rows.members)) [
          | inr (why, away) ↦ rw (accept_invite, live, away) (row, at, refl, low, omega arith)
          | inl welcome ↦ rw (accept_invite, live, welcome) (join-Step a rows row at cap low)
        ]
      ]

  -- How many attempts, one after the other, let somebody in.
  unfoldable pub let_in : List Attempt → Rows → ℕ
  unfolding accept_invite
  let_in [] rows = 0
  let_in (a ∷ attempts) rows =
      counts (admits (accept_invite equal_fold a rows).0)
      + let_in attempts (accept_invite equal_fold a rows).1

  -- Over attempts none of which finds its copy past its date or its cap and saves it as such, an
  -- invite with a cap lets in no more people than its cap has left, wherever the database fails.
  pub let_in-le :
      (attempts : List Attempt) (rows : Rows) (row : InviteRow)
      → all is_settled attempts ≡ true
      → rows.invite ≡ some row
      → 0 < coalesce row.max_uses
      → coalesce row.use_count ≤ coalesce row.max_uses
      → coalesce row.use_count + let_in attempts rows ≤ coalesce row.max_uses
  unfolding let_in
  let_in-le [] rows row settled at cap low = omega arith
  let_in-le (a ∷ attempts) rows row settled at cap low =
      let first : is_settled a ≡ true = ground (arith, settled) in
      let others : all is_settled attempts ≡ true = ground (arith, settled) in
      let (row', next, same, low', step) = accept-Step a rows row first at cap low in
      let rest =
        let_in-le attempts (accept_invite equal_fold a rows).1 row' others next (omega arith)
          low' in
      omega (arith, rest, step, same)

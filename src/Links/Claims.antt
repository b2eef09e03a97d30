-- ===== src/Links/Claims.antt =====
-- Claims of views of one link by readers that run at once (services/links.go).
use revoked.Prelude.{
  ℕ, ◌+◌, ◌≤◌, ◌<◌, ◌≡◌, refl, inl, inr, Bool, false, not, ◌&&◌, ◌||◌, Option, some, List, [], ◌∷◌,
  ltb, leb, eqb, arith, if◌then◌else◌, Bool-cases,
}
use revoked.Links.{
  Link, LinkRow, coalesce, Statement, claim, set_revoked, execute, Failures, Claim, failed,
  cap_reached, claimed, claim_link_view, status_revoked, viewed,
}

-- The statements that any number of readers send, in the order in which the database runs them,
-- and how many claims took a view.
unfoldable pub views_taken : List Statement → Option LinkRow → ℕ
views_taken [] row = 0
views_taken (claim ∷ ss) row = (execute claim row).1 + views_taken ss (execute claim row).0
views_taken (set_revoked ∷ ss) row = views_taken ss (execute set_revoked row).0

-- Where a link has a cap that its count does not exceed: whatever the order of the readers'
-- statements, no more views are taken than the cap has left.
pub views_taken-le :
    (ss : List Statement) (row : LinkRow)
    → 0 < coalesce row.max_views
    → coalesce row.view_count ≤ coalesce row.max_views
    → coalesce row.view_count + views_taken ss (some row) ≤ coalesce row.max_views
unfolding views_taken execute
views_taken-le [] row cap low = omega arith
views_taken-le (claim ∷ ss) row cap low =
    elim (Bool-cases (ltb (coalesce row.view_count) (coalesce row.max_views))) [
      | inl room ↦
          let rest =
            views_taken-le ss (record row { view_count = some (coalesce row.view_count + 1) }) cap
              (ground arith) in
          rw (room, views_taken, execute) (ground (arith, rest))
      | inr full ↦
          let rest = views_taken-le ss row cap low in
          rw (full, views_taken, execute) (ground (arith, rest))
    ]
views_taken-le (set_revoked ∷ ss) row cap low =
    views_taken-le ss (record row { status = status_revoked }) cap low

abbrev pub serves : Claim → ℕ
serves failed = 0
serves cap_reached = 0
serves (claimed _ _) = 1

-- Readers that claim one after the other, each with its own copy of the link and its own luck with
-- the database; how many are served.
unfoldable pub served : List (Failures × Link) → Option LinkRow → ℕ
served [] row = 0
served ((f, link) ∷ readers) row =
    let c = claim_link_view f row link in serves c.answer + served readers c.row

-- One reader takes a view at most, only under the cap, and keeps the cap.
claim_step :
    (f : Failures) (link : Link) (row : LinkRow)
    → 0 < coalesce row.max_views
    → coalesce row.view_count ≤ coalesce row.max_views
    → (row' : LinkRow) × ((claim_link_view f (some row) link).row ≡ some row')
      × (coalesce row'.max_views ≡ coalesce row.max_views)
      × (coalesce row'.view_count ≤ coalesce row'.max_views)
      × (coalesce row.view_count + serves (claim_link_view f (some row) link).answer
          ≤ coalesce row'.view_count)
unfolding claim_link_view execute
claim_step f link row cap low = elim (Bool-cases f.update_fails) [
  | inl down ↦ (row, ground arith, refl, low, ground arith)
  | inr up ↦ elim (Bool-cases (ltb (coalesce row.view_count) (coalesce row.max_views))) [
    | inl room ↦
        let taken = record row { view_count = some (coalesce row.view_count + 1) } in
        elim (Bool-cases (f.affected_fails)) [
          | inl lost ↦ (taken, ground arith, refl, ground arith, ground arith)
          | inr counted ↦
              elim (Bool-cases (
                ltb 0 link.max_views
                && leb link.max_views (link.view_count + 1)
                && not f.status_fails)) [
                  | inl last ↦ (
                    record taken { status = status_revoked },
                    ground arith,
                    refl,
                    ground arith,
                    ground arith,
                  )
                  | inr others ↦ (taken, ground arith, refl, ground arith, ground arith)
                ]
        ]
    | inr full ↦ (row, ground arith, refl, low, ground arith)
  ]
]

-- Where a link has a cap that its count does not exceed: whatever copies of the link the readers
-- hold, and wherever the database fails, no more of them are served than the cap has left.
pub served-le :
    (readers : List (Failures × Link)) (row : LinkRow)
    → 0 < coalesce row.max_views
    → coalesce row.view_count ≤ coalesce row.max_views
    → coalesce row.view_count + served readers (some row) ≤ coalesce row.max_views
unfolding served
served-le [] row cap low = omega arith
served-le ((f, link) ∷ readers) row cap low =
    let (row', at, same_cap, low', step) = claim_step f link row cap low in
    let rest = served-le readers row' (omega arith) low' in rw at (omega (arith, rest, step))

abbrev pub no_failures : Failures
no_failures = record { update_fails = false; affected_fails = false; status_fails = false }

-- The copy says what the row says.
abbrev pub IsFresh : Link → LinkRow → Type 0
IsFresh link row =
    (link.view_count ≡ coalesce row.view_count) × (link.max_views ≡ coalesce row.max_views)

-- The row has a view left.
abbrev pub has_room : LinkRow → Bool
has_room row =
    eqb (coalesce row.max_views) 0 || ltb (coalesce row.view_count) (coalesce row.max_views)

-- The row's next view is its last.
abbrev pub next_is_last : LinkRow → Bool
next_is_last row =
    ltb 0 (coalesce row.max_views) && leb (coalesce row.max_views) (coalesce row.view_count + 1)

-- The row with its next view taken.
abbrev pub view_taken : LinkRow → LinkRow
view_taken row = record {
  view_count = some (coalesce row.view_count + 1);
  max_views = row.max_views;
  status = if next_is_last row then status_revoked else row.status;
}

-- With a fresh copy and a database that answers, a reader under the cap is told the row's new
-- count, and whether it took the last view, in which case the row is revoked; past the cap it is
-- turned away and the row stays.
pub claim_exact :
    (link : Link) (row : LinkRow)
    → IsFresh link row
    → let c = claim_link_view no_failures (some row) link in
      (c.answer ≡ (
        if has_room row
        then claimed (coalesce row.view_count + 1) (next_is_last row)
        else cap_reached))
      × (c.row ≡ some (if has_room row then view_taken row else row))
unfolding claim_link_view execute
claim_exact link row (count, most) = elim (Bool-cases (has_room row)) [
  | inl room ↦ elim (Bool-cases (next_is_last row)) [
    | inl last ↦ ground arith
    | inr more ↦ ground arith
  ]
  | inr full ↦ ground arith
]

-- A reader whose copy is so old that it counts more than one view left takes the last view without
-- noticing: it is told a count that is too low, the row keeps its status, and nobody is told that
-- the cap is reached.
pub last_view_unnoticed :
    (link : Link) (row : LinkRow)
    → link.view_count + 1 < link.max_views
    → coalesce row.view_count + 1 ≡ coalesce row.max_views
    → let c = claim_link_view no_failures (some row) link in
      (c.answer ≡ claimed (link.view_count + 1) false)
      × (c.row ≡ some (record row { view_count = some (coalesce row.max_views) }))
      × (c.told ≡ viewed ∷ [])
unfolding claim_link_view execute
last_view_unnoticed link row old last = ground arith

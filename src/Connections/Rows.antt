-- ===== src/Connections/Rows.antt =====
-- What happens to one row that is held, let go or revoked (services/connectionControls.go).
use revoked.Prelude.{
  ◌≡◌, refl, ◌⊎◌, inl, inr, Bool, true, false, not, ◌==◌, some, arith, eq_iff, if◌then◌else◌,
}
use revoked.Links.{status_active, status_paused, status_revoked}
use revoked.Connections.{Held, hold, release, revoke_link, let_go, close_request}

-- A row that is neither held nor active.
abbrev pub resting : Held → Bool
resting row = not (row.status == status_active)

-- The row that a hold leaves.
hold-left :
    (saves : Bool) (row row' : Held)
    → hold saves row ≡ some row'
    → ((resting row ≡ true) × (row' ≡ row))
      ⊎ ((row.status ≡ status_active)
          × (row' ≡ record row { status = status_paused; held_paused = true }))
unfolding hold
hold-left saves row row' h = ground (arith, eq_iff row.status status_active)

-- Releasing a row that was held gives the row back; a row that was not active before, so that its
-- owner paused it or it ended, is left as it is all along.
pub hold-release :
    (saves : Bool) (row row' : Held)
    → row.held_paused ≡ false
    → hold saves row ≡ some row'
    → release true row' ≡ some row
unfolding release
hold-release saves row row' free h = elim (hold-left saves row row' h) [
  | inl (asleep, same) ↦ rw same (ground (arith, free))
  | inr (active, held) ↦ rw held (ground (arith, free, active))
]

-- What a row whose hold was taken can be.
pub hold-resting :
    (saves : Bool) (row row' : Held) → hold saves row ≡ some row' → resting row' ≡ true
hold-resting saves row row' h = elim (hold-left saves row row' h) [
  | inl (asleep, same) ↦ rw same asleep
  | inr (active, held) ↦ rw held refl
]

-- A hold leaves a row with its connection.
pub hold-connection :
    (saves : Bool) (row row' : Held) → hold saves row ≡ some row' → row'.connection ≡ row.connection
unfolding hold
hold-connection saves row row' h = ground arith

-- A release wakes a row only if a hold had paused it.
pub release_wakes :
    (saves : Bool) (row row' : Held)
    → release saves row ≡ some row'
    → row'.status ≡ status_active
    → (row.status ≡ status_active) ⊎ ((row.status ≡ status_paused) × (row.held_paused ≡ true))
unfolding release
release_wakes saves row row' h a = ground (arith, eq_iff row.status status_paused)

-- Revoking a row ends it for good, whatever it was.
pub revoke_link-ended :
    (saves : Bool) (row row' : Held)
    → revoke_link saves row ≡ some row'
    → row' ≡ record row { status = status_revoked; held_paused = false }
unfolding revoke_link
revoke_link-ended saves row row' h = ground (arith, eq_iff row.status status_revoked)

-- Letting a row go takes the hold away and leaves its status.
pub let_go-kept :
    (saves : Bool) (row row' : Held)
    → let_go saves row ≡ some row'
    → row' ≡ record row { held_paused = false }
unfolding let_go
let_go-kept saves row row' h = ground arith

-- A request that goes with its connection does what a link does.
pub close_request_iff :
    (revoke saves : Bool) (row : Held)
    → close_request revoke saves row ≡ (if revoke then revoke_link saves row else let_go saves row)
unfolding close_request revoke_link let_go
close_request_iff revoke saves row = ground arith

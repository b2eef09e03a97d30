-- ===== src/Connections.antt =====
-- Links and requests that a connected tool proposed, held and let go with the connection:
-- services/connectionControls.go. A row of links and one of requests have the same columns here.
pub mod Transactions
pub mod Rows
mod Tests
use revoked.Prelude.{
  String, Bool, true, false, not, ◌&&◌, Option, none, some, List, [], ◌∷◌, ◌==◌, if◌then◌else◌,
}
use revoked.Links.{status_active, status_paused, status_revoked}

-- The columns of a link or a request that the code touches.
pub record Held : Type 0 where
  pub id : String
  pub connection : String
  pub status : String
  pub held_paused : Bool

-- `app.Save` of a row, which `saves` says to be taken.
abbrev pub save : Bool → Held → Option Held
save saves row = if saves then some row else none

-- `holdLink` and `holdRequest`
unfoldable pub hold : Bool → Held → Option Held
hold saves row =
    if not (row.status == status_active)
    then some row
    else save saves (record row { status = status_paused; held_paused = true })

-- `releaseLink` and `releaseRequest`
unfoldable pub release : Bool → Held → Option Held
release saves row =
    if not row.held_paused
    then some row
    else save saves (record row {
      status = if row.status == status_paused then status_active else row.status;
      held_paused = false;
    })

-- `revokeLink`
unfoldable pub revoke_link : Bool → Held → Option Held
revoke_link saves row =
    if row.status == status_revoked && not row.held_paused
    then some row
    else save saves (record row { status = status_revoked; held_paused = false })

-- What `DisconnectConnection` does to a link that it does not revoke.
unfoldable pub let_go : Bool → Held → Option Held
let_go saves row =
    if row.held_paused then save saves (record row { held_paused = false }) else some row

-- `closeRequest`
unfoldable pub close_request : Bool → Bool → Held → Option Held
close_request revoke saves row =
    if revoke
    then (if row.status == status_revoked && not row.held_paused
        then some row
        else save saves (record row { status = status_revoked; held_paused = false }))
    else if not row.held_paused
    then some row
    else save saves (record row { held_paused = false })

-- A connection, with all links and all requests of the database.
pub record Connection : Type 0 where
  pub id : String
  pub paused : Bool

pub record State : Type 0 where
  pub connection : Option Connection
  pub links : List Held
  pub requests : List Held

-- What the database takes in a transaction.
pub record Database : Type 0 where
  pub saves_connection : Bool
  pub finds_links : Bool
  pub finds_requests : Bool
  pub saves_link : String → Bool
  pub saves_request : String → Bool
  pub deletes : Bool

-- The loop over the rows of a connection (`connectionLinks`, `connectionRequests`); the others
-- stay. The first failure ends it.
pub each : (String → Bool) → (Bool → Held → Option Held) → String → List Held → Option (List Held)
each saves f connection [] = some []
each saves f connection (row ∷ rows) =
    let rest = each saves f connection rows in
    if row.connection == connection
    then elim (f (saves row.id) row) [
      | none ↦ none
      | some row' ↦ elim rest [ none ↦ none | some rows' ↦ some (row' ∷ rows') ]
    ]
    else elim rest [ none ↦ none | some rows' ↦ some (row ∷ rows') ]

-- The loop over the links, then `eachConnectionRequest`; `none` is an error.
pub each_row :
    Database
    → (Bool → Held → Option Held)
    → (Bool → Held → Option Held)
    → String
    → State
    → Option State
unfolding each
each_row db on_link on_request connection s =
    if not db.finds_links then none else elim (each db.saves_link on_link connection s.links) [
      | none ↦ none
      | some links' ↦
          if not db.finds_requests
          then none
          else elim (each db.saves_request on_request connection s.requests) [
            | none ↦ none
            | some requests' ↦ some (record s { links = links'; requests = requests' })
          ]
    ]

-- `RunInTransaction`: a failed transaction leaves the state; the flag says that it was taken.
abbrev pub transaction : State → Option State → State × Bool
transaction s none = (s, false)
transaction s (some s') = (s', true)

-- `PauseConnection`
unfoldable pub pause_connection : Database → Connection → State → State × Bool
unfolding each_row hold
pause_connection db conn s = transaction s (
    if not db.saves_connection
    then none
    else each_row db hold hold conn.id
        (record s { connection = some (record conn { paused = true }) }))

-- `ResumeConnection`
unfoldable pub resume_connection : Database → Connection → State → State × Bool
unfolding each_row release
resume_connection db conn s = transaction s (
    if not db.saves_connection
    then none
    else each_row db release release conn.id
        (record s { connection = some (record conn { paused = false }) }))

-- `DisconnectConnection`
unfoldable pub disconnect_connection : Database → Connection → Bool → State → State × Bool
unfolding each_row revoke_link let_go close_request
disconnect_connection db conn revoke_links s =
    transaction s
      (elim (each_row db (if revoke_links then revoke_link else let_go) (close_request revoke_links)
        conn.id s) [
          | none ↦ none
          | some s' ↦ if not db.deletes then none else some (record s' { connection = none })
        ])

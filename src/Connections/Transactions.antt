-- ===== src/Connections/Transactions.antt =====
-- Pausing, resuming and disconnecting a connection (services/connectionControls.go).
use revoked.Prelude.{
  ◌≡◌, refl, sym, subst, String, ◌⊎◌, inl, inr, Bool, true, false, ◌==◌, Option, none, some, List,
  [], ◌∷◌, All, ◌∙◌, Bool-cases, Option-cases, arith, eq_iff,
}
use revoked.Links.{status_revoked}
use revoked.Connections.{
  Held, hold, release, revoke_link, close_request, each, each_row, Connection, State, Database,
  pause_connection, resume_connection, disconnect_connection,
}
use revoked.Connections.Rows.{
  resting, hold-release, hold-resting, hold-connection, revoke_link-ended, close_request_iff,
}

-- Every row of the connection has the property.
abbrev pub AllOf : String → (Held → Type 0) → List Held → Type 0
AllOf connection P = All (λ r. r.connection ≡ connection → P r)

-- Inversion of a loop that went through.
each-cons :
    (saves : String → Bool) (f : Bool → Held → Option Held) (connection : String) (row : Held)
    (rows rows' : List Held)
    → each saves f connection (row ∷ rows) ≡ some rows'
    → (row' : Held) × (rest : List Held) × (rows' ≡ row' ∷ rest)
      × (each saves f connection rows ≡ some rest)
      × (((row.connection ≡ connection) × (f (saves row.id) row ≡ some row'))
          ⊎ (((row.connection == connection) ≡ false) × (row' ≡ row)))
unfolding each
each-cons saves f connection row rows rows' h = elim (Option-cases (each saves f connection rows)) [
  | inl failed ↦ ground (arith, failed)
  | inr (rest, went) ↦ elim (Bool-cases (row.connection == connection)) [
    | inl its ↦ elim (Option-cases (f (saves row.id) row)) [
      | inl unsaved ↦ ground (arith, its, unsaved)
      | inr (row', saved) ↦ (
        row',
        rest,
        ground (arith, went, its, saved),
        went,
        inl ((eq_iff row.connection connection).0 its, saved),
      )
    ]
    | inr other ↦ (row, rest, ground (arith, went, other), went, inr (other, refl))
  ]
]

-- What a taken step leaves, every row of the connection has after the loop.
each-All :
    (saves : String → Bool) (f : Bool → Held → Option Held) (connection : String)
    (P : Held → Type 0)
    → ((b : Bool) (row row' : Held) → f b row ≡ some row' → P row')
    → (rows rows' : List Held) → each saves f connection rows ≡ some rows'
    → AllOf connection P rows'
unfolding each
each-All saves f connection P step [] [] h = tt
each-All saves f connection P step [] (_ ∷ _) h = cc
each-All saves f connection P step (row ∷ rows) rows' h =
    let (row', rest, whole, went, how) = each-cons saves f connection row rows rows' h in
    let kept = each-All saves f connection P step rows rest went in
    rw whole (
      (elim how [
        | inl (its, saved) ↦ λ _. step (saves row.id) row row' saved
        | inr (other, same) ↦ λ e. cc (
          (eq_iff row.connection connection).1
              (subst (λ (r : Held). r.connection ≡ connection) same e),
          other,
        )
      ]),
      kept,
    )

-- A loop that undoes what a loop did gives the rows back.
each-back :
    (saves saves' : String → Bool) (f g : Bool → Held → Option Held) (connection : String)
    (P : Held → Type 0)
    → ((b b' : Bool) (row row' : Held)
        → P row
        → f b row ≡ some row'
        → (row'.connection ≡ row.connection) × (g true row' ≡ some row))
    → ((id : String) → saves' id ≡ true)
    → (rows rows' : List Held) → AllOf connection P rows
    → each saves f connection rows ≡ some rows'
    → each saves' g connection rows' ≡ some rows
unfolding each
each-back saves saves' f g connection P undo up [] [] all h = refl
each-back saves saves' f g connection P undo up [] (_ ∷ _) all h = cc
each-back saves saves' f g connection P undo up (row ∷ rows) rows' (here, all) h =
    let (row', rest, whole, went, how) = each-cons saves f connection row rows rows' h in
    let back = each-back saves saves' f g connection P undo up rows rest all went in
    rw whole (elim how [
      | inl (its, saved) ↦
          let (kept, undone) = undo (saves row.id) true row row' (here its) saved in
          let is_its = (eq_iff row'.connection connection).1 (kept ∙ its) in
          rw (is_its, up row'.id, undone, back) refl
      | inr (other, same) ↦ rw (same, other, back) (rw same refl)
    ])

-- The inversion of a taken transaction over all rows of a connection.
each_row-inv :
    (db : Database) (f g : Bool → Held → Option Held) (connection : String) (s s' : State)
    → each_row db f g connection s ≡ some s'
    → (each db.saves_link f connection s.links ≡ some s'.links)
      × (each db.saves_request g connection s.requests ≡ some s'.requests)
      × (s'.connection ≡ s.connection)
unfolding each_row
each_row-inv db f g connection s s' h = ground arith

-- A taken pause refuses the tool and leaves no link and no request of the connection active.
pub pause_connection-rests :
    (db : Database) (conn : Connection) (s s' : State)
    → pause_connection db conn s ≡ (s', true)
    → (s'.connection ≡ some (record conn { paused = true }))
      × AllOf conn.id (λ r. resting r ≡ true) s'.links
      × AllOf conn.id (λ r. resting r ≡ true) s'.requests
unfolding pause_connection
pause_connection-rests db conn s s' h =
    let before = record s { connection = some (record conn { paused = true }) } in
    let went : each_row db hold hold conn.id before ≡ some s' = ground arith in
    let (links, requests, connected) = each_row-inv db hold hold conn.id before s' went in
    (
      connected,
      each-All db.saves_link hold conn.id (λ r. resting r ≡ true) hold-resting s.links s'.links
          links,
      each-All db.saves_request hold conn.id (λ r. resting r ≡ true) hold-resting s.requests
          s'.requests requests,
    )

-- A database that takes every write.
abbrev pub IsUp : Database → Type 0
IsUp db =
    (db.saves_connection ≡ true)
    × (db.finds_links ≡ true)
    × (db.finds_requests ≡ true)
    × ((id : String) → db.saves_link id ≡ true)
    × ((id : String) → db.saves_request id ≡ true)

held_back :
    (b b' : Bool) (row row' : Held)
    → row.held_paused ≡ false
    → hold b row ≡ some row'
    → (row'.connection ≡ row.connection) × (release true row' ≡ some row)
held_back b b' row row' free h = (hold-connection b row row' h, hold-release b row row' free h)

each_row-back :
    (db db' : Database) (conn : String) (s s' : State)
    → IsUp db'
    → AllOf conn (λ r. r.held_paused ≡ false) s.links
    → AllOf conn (λ r. r.held_paused ≡ false) s.requests
    → each_row db hold hold conn s ≡ some s'
    → (connection : Option Connection)
    → each_row db' release release conn (record s' { connection = connection })
      ≡ some (record s { connection = connection })
unfolding each_row
each_row-back db db' conn s s' (_, finds, finds', saves, saves') free free' h connection =
    let (links, requests, _) = each_row-inv db hold hold conn s s' h in
    let links' =
      each-back db.saves_link db'.saves_link hold release conn (λ r. r.held_paused ≡ false)
        held_back saves s.links s'.links free links in
    let requests' =
      each-back db.saves_request db'.saves_request hold release conn (λ r. r.held_paused ≡ false)
        held_back saves' s.requests s'.requests free' requests in
    rw (finds, links', finds', requests') refl

-- Resuming a connection right after a taken pause, with a database that takes every write, gives
-- back exactly the state from before, where the connection was not paused and none of its rows was
-- held: what was active is active again, and what its owner had paused stays paused.
pub pause-resume :
    (db db' : Database) (conn : Connection) (s s' : State)
    → IsUp db'
    → conn.paused ≡ false
    → s.connection ≡ some conn
    → AllOf conn.id (λ r. r.held_paused ≡ false) s.links
    → AllOf conn.id (λ r. r.held_paused ≡ false) s.requests
    → pause_connection db conn s ≡ (s', true)
    → resume_connection db' (record conn { paused = true }) s' ≡ (s, true)
unfolding pause_connection resume_connection
pause-resume db db' conn s s' up live at free free' h =
    let before = record s { connection = some (record conn { paused = true }) } in
    let went : each_row db hold hold conn.id before ≡ some s' = ground arith in
    let back =
      each_row-back db db' conn.id before s' up free free' went
        (some (record conn { paused = false })) in
    rw (up.0, back) (ground (arith, live, at))

revoked_status :
    (b : Bool) (row row' : Held)
    → revoke_link b row ≡ some row'
    → (row'.status ≡ status_revoked) × (row'.held_paused ≡ false)
revoked_status b row row' h = rw (revoke_link-ended b row row' h) (refl, refl)

closed_status :
    (b : Bool) (row row' : Held)
    → close_request true b row ≡ some row'
    → (row'.status ≡ status_revoked) × (row'.held_paused ≡ false)
closed_status b row row' h = revoked_status b row row' (sym (close_request_iff true b row) ∙ h)

disconnect-inv :
    (db : Database) (conn : Connection) (s s' : State)
    → disconnect_connection db conn true s ≡ (s', true)
    → (m : State) × (each_row db revoke_link (close_request true) conn.id s ≡ some m)
      × (s' ≡ record m { connection = none })
unfolding disconnect_connection
disconnect-inv db conn s s' h =
    elim (Option-cases (each_row db revoke_link (close_request true) conn.id s)) [
      | inl failed ↦ ground (arith, failed)
      | inr (m, went) ↦ (m, went, ground (arith, went))
    ]

-- A taken disconnect that revokes ends every link and every request of the connection, and deletes
-- the connection.
pub disconnect_connection-ends :
    (db : Database) (conn : Connection) (s s' : State)
    → disconnect_connection db conn true s ≡ (s', true)
    → (s'.connection ≡ none)
      × AllOf conn.id (λ r. (r.status ≡ status_revoked) × (r.held_paused ≡ false)) s'.links
      × AllOf conn.id (λ r. (r.status ≡ status_revoked) × (r.held_paused ≡ false)) s'.requests
disconnect_connection-ends db conn s s' h =
    let (m, went, left) = disconnect-inv db conn s s' h in
    let (links, requests, _) = each_row-inv db revoke_link (close_request true) conn.id s m went in
    rw left (
      refl,
      each-All db.saves_link revoke_link conn.id
          (λ r. (r.status ≡ status_revoked) × (r.held_paused ≡ false)) revoked_status s.links
          m.links links,
      each-All db.saves_request (close_request true) conn.id
          (λ r. (r.status ≡ status_revoked) × (r.held_paused ≡ false)) closed_status s.requests
          m.requests requests,
    )

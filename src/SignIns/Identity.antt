-- ===== src/SignIns/Identity.antt =====
-- The identity under which a service sees a person (services/connectionControls.go).
use revoked.Prelude.{
  ◌≡◌, refl, ◌+◌, ℕ, Bool, true, false, Option, none, some, arith, eq_iff, List, [], ◌∷◌, ltb,
}
use revoked.Links.{status_revoked}
use revoked.Connections.{Held}
use revoked.SignIns.{
  SignIn, World, Database, Event, pause, resume, disconnect, approve, run, run_event,
  sign_in_status, status_disconnected, pause_sign_in, resume_sign_in, disconnect_sign_in,
  record_sign_in, cut_row,
}

-- The row's subject is past the given one.
abbrev pub subject_past : Option SignIn → ℕ → Bool
subject_past none v = false
subject_past (some row) v = ltb v row.subject_version

-- No event brings a subject back.
run_event-past :
    (e : Event) (w : World) (v : ℕ)
    → subject_past w.row v ≡ true
    → subject_past (run_event e w).row v ≡ true
unfolding run_event pause_sign_in resume_sign_in disconnect_sign_in record_sign_in
run_event-past (pause db) w v o = ground arith
run_event-past (resume db) w v o = ground arith
run_event-past (disconnect db now new_id) w v o = ground arith
run_event-past (approve saves now a link) w v o = ground arith

run-past :
    (es : List Event) (w : World) (v : ℕ)
    → subject_past w.row v ≡ true
    → subject_past (run es w).row v ≡ true
unfolding run
run-past [] w v o = o
run-past (e ∷ es) w v o = run-past es (run_event e w) v (run_event-past e w v o)

-- After a disconnect with a new ID that was taken, of a row that was not to get one yet, the old
-- link is no longer the service's but revoked, the row is disconnected, names neither a record nor
-- an identity for the name, is due a new ID, and has its subject and its generation raised by one,
-- and no later row has the old subject, whatever happens later.
pub new_id_for_good :
    (later : List Event) (db : Database) (now : ℕ) (row : SignIn) (w w' : World) (l : Held)
    → w.row ≡ some row
    → w.link ≡ some l
    → row.new_id_on_return ≡ false
    → disconnect_sign_in db now true row w ≡ some w'
    → (w'.link ≡ none)
      × (w'.detached ≡ record l { status = status_revoked; held_paused = false } ∷ w.detached)
      × (r : SignIn) × (w'.row ≡ some r)
      × (sign_in_status r ≡ status_disconnected)
      × (r.name_record ≡ "")
      × (r.name_identity ≡ "")
      × (r.new_id_on_return ≡ true)
      × (r.subject_version ≡ row.subject_version + 1)
      × (r.generation ≡ row.generation + 1)
      × (subject_past (run later w').row row.subject_version ≡ true)
unfolding disconnect_sign_in
new_id_for_good later db now row w w' l at linked fresh h =
    let past : subject_past w'.row row.subject_version ≡ true = ground arith in
    let kept = run-past later w' row.subject_version past in
    let cut = cut_row now true row in
    (ground arith, ground arith, cut, ground arith, refl, refl, refl, refl, refl, refl, kept)

-- A further disconnect, with or without a new ID, never takes back a new ID that is due, and
-- changes nothing then.
pub new_id_kept :
    (db : Database) (now : ℕ) (new_id : Bool) (row : SignIn) (w : World)
    → sign_in_status row ≡ status_disconnected
    → row.new_id_on_return ≡ true
    → disconnect_sign_in db now new_id row w ≡ some w
unfolding disconnect_sign_in
new_id_kept db now new_id row w d due =
    ground (arith, eq_iff (sign_in_status row) status_disconnected)

-- ===== src/SignIns/Generation.antt =====
-- Codes and tokens issued to a service (services/connectionControls.go).
use revoked.Prelude.{
  ◌≡◌, refl, sym, String, ℕ, ◌⊎◌, inl, inr, Bool, true, false, Option, none, some, Option-cases,
  subst, arith, eq_iff, List, [], ◌∷◌, ltb, leb, eqb, any, ◌==◌, if◌then◌else◌,
}
use revoked.Links.{status_active, status_paused}
use revoked.Links.Lifecycle.{active_others}
use revoked.SignIns.{
  SignIn, World, Database, Event, pause, resume, disconnect, approve, run, run_event,
  sign_in_status, status_disconnected, sign_in_allows, pause_sign_in, resume_sign_in,
  disconnect_sign_in, record_sign_in, Transaction, on_row, commit,
}

-- Before any sign-in.
abbrev pub start : World
start = record { row = none; link = none; detached = []; issued = [] }

-- The row's generation is past the code's.
abbrev pub outdated : Option SignIn → ℕ → Bool
outdated none g = false
outdated (some row) g = ltb g row.generation

-- The row has the code's generation, or is past it, as it is while it is disconnected.
abbrev covers : Option SignIn → ℕ → Bool
covers none g = false
covers (some row) g =
    if sign_in_status row == status_disconnected then ltb g row.generation else leb g row.generation

-- No event brings a generation back.
run_event-outdated :
    (e : Event) (w : World) (g : ℕ)
    → outdated w.row g ≡ true
    → outdated (run_event e w).row g ≡ true
unfolding run_event pause_sign_in resume_sign_in disconnect_sign_in record_sign_in
run_event-outdated (pause db) w g o = ground arith
run_event-outdated (resume db) w g o = ground arith
run_event-outdated (disconnect db now new_id) w g o = ground arith
run_event-outdated (approve saves now a link) w g o = ground arith

run-outdated :
    (es : List Event) (w : World) (g : ℕ)
    → outdated w.row g ≡ true
    → outdated (run es w).row g ≡ true
unfolding run
run-outdated [] w g o = o
run-outdated (e ∷ es) w g o = run-outdated es (run_event e w) g (run_event-outdated e w g o)

outdated-refused :
    (row : Option SignIn) (g : ℕ) → outdated row g ≡ true → sign_in_allows row g ≡ false
unfolding sign_in_allows
outdated-refused none g o = refl
outdated-refused (some row) g o = ground arith

-- Only an approval issues a code.
on_row-issued :
    (f : SignIn → World → Transaction) (w : World)
    → ((row : SignIn) (w' : World) → f row w ≡ some w' → w'.issued ≡ w.issued)
    → (on_row f w).issued ≡ w.issued
on_row-issued f w k = elim (Option-cases w.row) [
  | inl no_row ↦ ground (arith, no_row)
  | inr (row, at) ↦ elim (Option-cases (f row w)) [
    | inl failed ↦ ground (arith, at, failed)
    | inr (w', taken) ↦ let same = k row w' taken in ground (arith, at, taken, same)
  ]
]

pause-issued :
    (db : Database) (row : SignIn) (w w' : World)
    → pause_sign_in db row w ≡ some w'
    → w'.issued ≡ w.issued
unfolding pause_sign_in
pause-issued db row w w' h = ground arith

resume-issued :
    (db : Database) (row : SignIn) (w w' : World)
    → resume_sign_in db row w ≡ some w'
    → w'.issued ≡ w.issued
unfolding resume_sign_in
resume-issued db row w w' h = ground arith

disconnect-issued :
    (db : Database) (now : ℕ) (new_id : Bool) (row : SignIn) (w w' : World)
    → disconnect_sign_in db now new_id row w ≡ some w'
    → w'.issued ≡ w.issued
unfolding disconnect_sign_in
disconnect-issued db now new_id row w w' h = ground arith

-- A transaction that was taken on the row that is there.
pub on_row-taken :
    (f : SignIn → World → Transaction) (w w' : World) (row : SignIn)
    → w.row ≡ some row
    → f row w ≡ some w'
    → w' ≡ on_row f w
on_row-taken f w w' row at done =
    subst (λ o. w' ≡ elim o as (λ _. World) [ none ↦ w | some r ↦ commit w (f r w) ]) (sym at)
      (rw done refl)

-- What was issued stays issued.
pub run_event-issued :
    (e : Event) (w : World) (g : ℕ)
    → any (eqb g) w.issued ≡ true
    → any (eqb g) (run_event e w).issued ≡ true
unfolding run_event
run_event-issued (pause db) w g i =
    let same = on_row-issued (pause_sign_in db) w (λ row w'. pause-issued db row w w') in rw same i
run_event-issued (resume db) w g i =
    let same = on_row-issued (resume_sign_in db) w (λ row w'. resume-issued db row w w') in
    rw same i
run_event-issued (disconnect db now new_id) w g i =
    let same =
      on_row-issued (disconnect_sign_in db now new_id) w
        (λ row w'. disconnect-issued db now new_id row w w') in
    rw same i
run_event-issued (approve saves now a link) w g i = ground (arith, i)

active_not_disconnected : (s : String) → s ≡ status_active → (s == status_disconnected) ≡ false
active_not_disconnected s h = rw h refl

paused_not_disconnected : (s : String) → s ≡ status_paused → (s == status_disconnected) ≡ false
paused_not_disconnected s h = rw h refl

pause-row :
    (db : Database) (row : SignIn) (w w' : World)
    → w.row ≡ some row
    → pause_sign_in db row w ≡ some w'
    → (w'.row ≡ some row)
      ⊎ ((sign_in_status row ≡ status_active)
          × (w'.row ≡ some (record row { status = status_paused })))
unfolding pause_sign_in
pause-row db row w w' at h = ground (arith, eq_iff (sign_in_status row) status_active)

resume-row :
    (db : Database) (row : SignIn) (w w' : World)
    → w.row ≡ some row
    → resume_sign_in db row w ≡ some w'
    → (w'.row ≡ some row)
      ⊎ ((sign_in_status row ≡ status_paused)
          × (w'.row ≡ some (record row { status = status_active })))
unfolding resume_sign_in
resume-row db row w w' at h = ground (arith, eq_iff (sign_in_status row) status_paused)

pause-covers :
    (db : Database) (row : SignIn) (w w' : World) (g : ℕ)
    → w.row ≡ some row
    → pause_sign_in db row w ≡ some w'
    → covers w.row g ≡ true
    → covers w'.row g ≡ true
pause-covers db row w w' g at h c = elim (pause-row db row w w' at h) [
  | inl same ↦ rw same (subst (λ r. covers r g ≡ true) at c)
  | inr (active, moved) ↦
      let live = active_not_disconnected (sign_in_status row) active in
      rw moved (ground (arith, live, at, c))
]

resume-covers :
    (db : Database) (row : SignIn) (w w' : World) (g : ℕ)
    → w.row ≡ some row
    → resume_sign_in db row w ≡ some w'
    → covers w.row g ≡ true
    → covers w'.row g ≡ true
resume-covers db row w w' g at h c = elim (resume-row db row w w' at h) [
  | inl same ↦ rw same (subst (λ r. covers r g ≡ true) at c)
  | inr (paused, moved) ↦
      let live = paused_not_disconnected (sign_in_status row) paused in
      rw moved (ground (arith, live, at, c))
]

disconnect-covers :
    (db : Database) (now : ℕ) (new_id : Bool) (row : SignIn) (w w' : World) (g : ℕ)
    → w.row ≡ some row
    → disconnect_sign_in db now new_id row w ≡ some w'
    → covers w.row g ≡ true
    → covers w'.row g ≡ true
unfolding disconnect_sign_in
disconnect-covers db now new_id row w w' g at h c = ground arith

on_row-covers :
    (f : SignIn → World → Transaction) (w : World) (g : ℕ)
    → ((row : SignIn) (w' : World)
        → w.row ≡ some row
        → f row w ≡ some w'
        → covers w.row g ≡ true
        → covers w'.row g ≡ true)
    → covers w.row g ≡ true
    → covers (on_row f w).row g ≡ true
on_row-covers f w g k c = elim (Option-cases w.row) [
  | inl no_row ↦ ground (arith, no_row)
  | inr (row, at) ↦ elim (Option-cases (f row w)) [
    | inl failed ↦ ground (arith, at, failed)
    | inr (w', taken) ↦ let kept = k row w' at taken c in ground (arith, at, taken, kept)
  ]
]

-- A row that covers a code still does after an event.
run_event-keeps :
    (e : Event) (w : World) (g : ℕ) → covers w.row g ≡ true → covers (run_event e w).row g ≡ true
unfolding run_event record_sign_in
run_event-keeps (pause db) w g c =
    on_row-covers (pause_sign_in db) w g (λ row w'. pause-covers db row w w' g) c
run_event-keeps (resume db) w g c =
    on_row-covers (resume_sign_in db) w g (λ row w'. resume-covers db row w w' g) c
run_event-keeps (disconnect db now new_id) w g c =
    on_row-covers (disconnect_sign_in db now new_id) w g
      (λ row w'. disconnect-covers db now new_id row w w' g) c
run_event-keeps (approve saves now a link) w g c = ground arith

-- Every code that was issued is covered, whatever happens after.
run_event-covers :
    (e : Event) (w : World) (g : ℕ)
    → (any (eqb g) w.issued ≡ true → covers w.row g ≡ true)
    → any (eqb g) (run_event e w).issued ≡ true
    → covers (run_event e w).row g ≡ true
unfolding run_event record_sign_in
run_event-covers (pause db) w g c i =
    let same = on_row-issued (pause_sign_in db) w (λ row w'. pause-issued db row w w') in
    run_event-keeps (pause db) w g (c (subst (λ l. any (eqb g) l ≡ true) same i))
run_event-covers (resume db) w g c i =
    let same = on_row-issued (resume_sign_in db) w (λ row w'. resume-issued db row w w') in
    run_event-keeps (resume db) w g (c (subst (λ l. any (eqb g) l ≡ true) same i))
run_event-covers (disconnect db now new_id) w g c i =
    let same =
      on_row-issued (disconnect_sign_in db now new_id) w
        (λ row w'. disconnect-issued db now new_id row w w') in
    run_event-keeps (disconnect db now new_id) w g (c (subst (λ l. any (eqb g) l ≡ true) same i))
run_event-covers (approve saves now a link) w g c i = ground arith

run-covers :
    (es : List Event) (w : World) (g : ℕ)
    → (any (eqb g) w.issued ≡ true → covers w.row g ≡ true)
    → any (eqb g) (run es w).issued ≡ true
    → covers (run es w).row g ≡ true
unfolding run
run-covers [] w g c i = c i
run-covers (e ∷ es) w g c i = run-covers es (run_event e w) g (run_event-covers e w g c) i

disconnect-outdated :
    (db : Database) (now : ℕ) (new_id : Bool) (row : SignIn) (w w' : World) (g : ℕ)
    → w.row ≡ some row
    → disconnect_sign_in db now new_id row w ≡ some w'
    → covers w.row g ≡ true
    → outdated w'.row g ≡ true
unfolding disconnect_sign_in
disconnect-outdated db now new_id row w w' g at h c = ground arith

-- A code or token that was issued before a disconnect that was taken is never allowed again,
-- whatever happens before and after: pauses, resumes, further sign-ins and disconnects, with any
-- failures of the database.
pub disconnected_for_good :
    (before later : List Event) (db : Database) (now : ℕ) (new_id : Bool) (row : SignIn)
    (w' : World) (g : ℕ)
    → (run before start).row ≡ some row
    → disconnect_sign_in db now new_id row (run before start) ≡ some w'
    → any (eqb g) (run before start).issued ≡ true
    → sign_in_allows (run later w').row g ≡ false
disconnected_for_good before later db now new_id row w' g at h i =
    let covered = run-covers before start g (λ e. e) i in
    let past = disconnect-outdated db now new_id row (run before start) w' g at h covered in
    outdated-refused (run later w').row g (run-outdated later w' g past)

-- A pause that was taken of an active row refuses every code, and a resume of it that was taken
-- allows again exactly the codes that were allowed before.
pub paused_and_resumed :
    (db db' : Database) (row : SignIn) (w p r : World) (g : ℕ)
    → sign_in_status row ≡ status_active
    → w.row ≡ some row
    → pause_sign_in db row w ≡ some p
    → resume_sign_in db' (record row { status = status_paused }) p ≡ some r
    → (sign_in_allows p.row g ≡ false) × (sign_in_allows r.row g ≡ sign_in_allows w.row g)
unfolding sign_in_allows pause_sign_in resume_sign_in
paused_and_resumed db db' row w p r g active at paused resumed =
    let others = active_others (sign_in_status row) active in
    let pause_at : p.row ≡ some (record row { status = status_paused }) = ground (arith, others) in
    let resume_at : r.row ≡ some (record row { status = status_active }) =
      ground (arith, pause_at) in
    rw (pause_at, resume_at, at) (ground (arith, others))

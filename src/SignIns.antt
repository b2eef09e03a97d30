-- ===== src/SignIns.antt =====
-- Sign-ins of a person at a service: services/connectionControls.go, and `findSignIn`,
-- `signInLink` and `RecordSignIn` of services/oidc.go. One person, workspace and service are fixed.
pub mod Generation
pub mod Identity
mod Tests
use revoked.Prelude.{
  ℕ, zero, suc, ◌+◌, String, Bool, true, false, not, ◌&&◌, ◌||◌, Option, none, some, List, [], ◌∷◌,
  ◌++◌, ◌==◌, eqb, contains, if◌then◌else◌,
}
use revoked.Links.{status_active, status_paused, status_revoked}
use revoked.Connections.{Held, hold, release}

abbrev pub status_disconnected : String
status_disconnected = "disconnected"

abbrev pub oidc_scope_openid : String
oidc_scope_openid = "openid"

-- A row of signIns; a status "" is from before there were statuses.
pub record SignIn : Type 0 where
  pub status : String
  pub generation : ℕ
  pub subject_version : ℕ
  pub disconnected_at : Option ℕ
  pub new_id_on_return : Bool
  pub link : String
  pub name_record : String
  pub name_identity : String
  pub scopes : List String
  pub last_sign_in_at : Option ℕ

-- What the code reads and writes: the row of signIns, the link that `signInLink` finds, with the
-- links that were detached from the service, and the generations under which codes were issued.
pub record World : Type 0 where
  pub row : Option SignIn
  pub link : Option Held
  pub detached : List Held
  pub issued : List ℕ

-- `SignInStatus`
abbrev pub sign_in_status : SignIn → String
sign_in_status row = if not (row.status == "") then row.status else status_active

-- Which writes of a transaction the database takes.
pub record Database : Type 0 where
  pub saves_row : Bool
  pub saves_link : Bool

-- The answer of an operation on the row that its handler found: what a transaction that was taken
-- leaves, or `none` where it failed and the state stays.
abbrev pub Transaction : Type 0
Transaction = Option World

-- A change of the service's link, if there is one, where `none` is a failed save.
abbrev pub on_link : (Held → Option Held) → World → Transaction
on_link f w = elim w.link [
  | none ↦ some w
  | some l ↦ elim (f l) [ none ↦ none | some l' ↦ some (record w { link = some l' }) ]
]

-- `PauseSignIn`
unfoldable pub pause_sign_in : Database → SignIn → World → Transaction
pause_sign_in db row w =
    if not (sign_in_status row == status_active)
    then some w
    else if not db.saves_row
    then none
    else on_link (hold db.saves_link)
        (record w { row = some (record row { status = status_paused }) })

-- `ResumeSignIn`
unfoldable pub resume_sign_in : Database → SignIn → World → Transaction
resume_sign_in db row w =
    if not (sign_in_status row == status_paused)
    then some w
    else if not db.saves_row
    then none
    else on_link (release db.saves_link)
        (record w { row = some (record row { status = status_active }) })

-- What a disconnect does to the link: revoked, and no longer the service's with a new ID.
abbrev pub cut_link : Bool → World → World
cut_link new_id w = elim w.link [
  | none ↦ w
  | some l ↦
      let cut = record l { status = status_revoked; held_paused = false } in
      if new_id
      then record w { link = none; detached = cut ∷ w.detached }
      else record w { link = some cut }
]

-- What a disconnect does to the row.
abbrev pub cut_row : ℕ → Bool → SignIn → SignIn
cut_row now new_id row =
    let already = sign_in_status row == status_disconnected in
    let closed = record row {
      status = status_disconnected;
      generation = row.generation + 1;
      disconnected_at = if already then row.disconnected_at else some now;
    } in
    if new_id
    then record closed {
      subject_version = row.subject_version + 1;
      new_id_on_return = true;
      link = "";
      name_record = "";
      name_identity = "";
    }
    else closed

abbrev pub is_none {ℓ} : {A : Type ℓ} → Option A → Bool
is_none none = true
is_none (some _) = false

-- `DisconnectSignIn`
unfoldable pub disconnect_sign_in : Database → ℕ → Bool → SignIn → World → Transaction
disconnect_sign_in db now new_id row w =
    if sign_in_status row == status_disconnected && (not new_id || row.new_id_on_return)
    then some w
    else if not (db.saves_link || is_none w.link) || not db.saves_row
    then none
    else some (record (cut_link new_id w) { row = some (cut_row now new_id row) })

-- `SignInAllows`
unfoldable pub sign_in_allows : Option SignIn → ℕ → Bool
sign_in_allows none generation = false
sign_in_allows (some row) generation =
    sign_in_status row == status_active && eqb row.generation generation

pub data SignInName : Type 0 where
  from_record from_identity : String → SignInName

-- `SignInApproval`
pub record Approval : Type 0 where
  pub scopes : List String
  pub link_id : String
  pub name_asked : Bool
  pub name : Option SignInName

-- The loop of `RecordSignIn` over the approved scopes.
unfoldable pub learn : List String → List String → List String
learn learned [] = learned
learn learned (s ∷ ss) =
    if not (s == oidc_scope_openid) && not (contains learned s)
    then learn (learned ++ s ∷ []) ss
    else learn learned ss

abbrev pub name_record_of : Option SignInName → String
name_record_of (some (from_record id)) = id
name_record_of _ = ""

abbrev pub name_identity_of : Option SignInName → String
name_identity_of (some (from_identity id)) = id
name_identity_of _ = ""

-- A row that `NewRecord` makes.
abbrev pub new_row : SignIn
new_row = record {
  status = "";
  generation = 0;
  subject_version = 0;
  disconnected_at = none;
  new_id_on_return = false;
  link = "";
  name_record = "";
  name_identity = "";
  scopes = [];
  last_sign_in_at = none;
}

abbrev pub found_or_new : Option SignIn → SignIn
found_or_new none = new_row
found_or_new (some row) = row

-- `RecordSignIn` up to its save
unfoldable pub record_sign_in : ℕ → Approval → Option SignIn → SignIn
unfolding learn
record_sign_in now a found =
    let row = found_or_new found in
    record row {
      scopes = learn row.scopes a.scopes;
      last_sign_in_at = some now;
      status = status_active;
      new_id_on_return = false;
      link = if not (a.link_id == "") then a.link_id else row.link;
      name_record = if a.name_asked then name_record_of a.name else row.name_record;
      name_identity = if a.name_asked then name_identity_of a.name else row.name_identity;
    }

-- What a person does, with the luck of the database; a failed transaction leaves the state.
pub data Event : Type 0 where
  pause : Database → Event
  resume : Database → Event
  disconnect : (db : Database) (now : ℕ) (new_id : Bool) → Event
  -- an approved sign-in, with the service's link as the approval leaves it
  approve : (saves : Bool) (now : ℕ) (a : Approval) (link : Option Held) → Event

abbrev pub commit : World → Transaction → World
commit w none = w
commit w (some w') = w'

abbrev pub on_row : (SignIn → World → Transaction) → World → World
on_row f w = elim w.row [ none ↦ w | some row ↦ commit w (f row w) ]

-- A code is issued under the generation of the row that the sign-in saved (routes/oidc.go).
unfoldable pub run_event : Event → World → World
unfolding record_sign_in pause_sign_in resume_sign_in disconnect_sign_in
run_event (pause db) w = on_row (pause_sign_in db) w
run_event (resume db) w = on_row (resume_sign_in db) w
run_event (disconnect db now new_id) w = on_row (disconnect_sign_in db now new_id) w
run_event (approve saves now a link) w =
    if saves
    then (let row = record_sign_in now a w.row in
        record w { row = some row; link = link; issued = row.generation ∷ w.issued })
    else w

unfoldable pub run : List Event → World → World
unfolding run_event
run [] w = w
run (e ∷ es) w = run es (run_event e w)

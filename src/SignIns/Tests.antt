-- ===== src/SignIns/Tests.antt =====
-- A person who signs in, disconnects and comes back (services/connectionControls.go).
use revoked.Prelude.{◌≡◌, refl, none, some, [], ◌∷◌, true, false, eqb, any}
use revoked.Links.{status_active, status_paused, status_revoked}
use revoked.Connections.{Held, hold, release}
use revoked.SignIns.{
  sign_in_status, status_disconnected, SignIn, World, Database, Event, approve, Approval, run,
  new_row, disconnect_sign_in, pause_sign_in, resume_sign_in, from_record, cut_row, run_event,
  record_sign_in, learn,
}
use revoked.SignIns.Generation.{start}
use revoked.SignIns.Identity.{new_id_for_good, new_id_kept, subject_past}

abbrev up : Database
up = record { saves_row = true; saves_link = true }

abbrev grant : Held
grant = record { id = "l1"; connection = ""; status = status_active; held_paused = false }

abbrev approval : Approval
approval = record {
  scopes = "openid" ∷ "name" ∷ [];
  link_id = "l1";
  name_asked = true;
  name = some (from_record "r1");
}

abbrev sign_in : Event
sign_in = approve true 5 approval (some grant)

abbrev signed_in : SignIn
signed_in = record new_row {
  status = status_active;
  link = "l1";
  name_record = "r1";
  scopes = "name" ∷ [];
  last_sign_in_at = some 5;
}

abbrev world : World
world = record { row = some signed_in; link = some grant; detached = []; issued = 0 ∷ [] }

run_test : run (sign_in ∷ []) start ≡ world
unfolding run run_event record_sign_in learn
run_test = refl

abbrev gone : World
gone = record {
  row = some (cut_row 9 true signed_in);
  link = none;
  detached = record grant { status = status_revoked } ∷ [];
  issued = 0 ∷ [];
}

cut : disconnect_sign_in up 9 true signed_in world ≡ some gone
unfolding disconnect_sign_in
cut = refl

signed_in_row : (run (sign_in ∷ []) start).row ≡ some signed_in
signed_in_row = rw run_test refl

cut_run : disconnect_sign_in up 9 true signed_in (run (sign_in ∷ []) start) ≡ some gone
cut_run = rw run_test cut

issued_run : any (eqb 0) (run (sign_in ∷ []) start).issued ≡ true
issued_run = rw run_test refl

abbrev quiet : World
quiet = record world {
  row = some (record signed_in { status = status_paused });
  link = some (record grant { status = status_paused; held_paused = true });
}

paused : pause_sign_in up signed_in world ≡ some quiet
unfolding pause_sign_in hold
paused = refl

resumed : resume_sign_in up (record signed_in { status = status_paused }) quiet ≡ some world
unfolding resume_sign_in release
resumed = refl

new_id_for_good_example :
    (gone.link ≡ none)
    × (gone.detached ≡ record grant { status = status_revoked } ∷ [])
    × (r : SignIn) × (gone.row ≡ some r)
    × (sign_in_status r ≡ status_disconnected)
    × (r.name_record ≡ "")
    × (r.name_identity ≡ "")
    × (r.new_id_on_return ≡ true)
    × (r.subject_version ≡ 1)
    × (r.generation ≡ 1)
    × (subject_past (run (sign_in ∷ []) gone).row 0 ≡ true)
new_id_for_good_example =
    new_id_for_good (sign_in ∷ []) up 9 signed_in world gone grant refl refl refl cut

new_id_kept_example : disconnect_sign_in up 20 true (cut_row 9 true signed_in) gone ≡ some gone
new_id_kept_example = new_id_kept up 20 true (cut_row 9 true signed_in) gone refl refl

-- ===== src/Connections/Tests.antt =====
-- A tool that is paused, resumed and disconnected (services/connectionControls.go).
use revoked.Prelude.{◌≡◌, refl, none, some, [], ◌∷◌, true, false}
use revoked.Links.{status_active, status_paused, status_revoked}
use revoked.Connections.{
  Held, hold, each, each_row, Connection, State, Database, pause_connection, resume_connection,
  disconnect_connection, revoke_link, close_request,
}
use revoked.Connections.Transactions.{pause-resume}

abbrev up : Database
up = record {
  saves_connection = true;
  finds_links = true;
  finds_requests = true;
  saves_link = λ _. true;
  saves_request = λ _. true;
  deletes = true;
}

abbrev tool : Connection
tool = record { id = "c1"; paused = false }

abbrev live : Held
live = record { id = "l1"; connection = "c1"; status = status_active; held_paused = false }

abbrev resting_link : Held
resting_link = record live { id = "l2"; status = status_paused }

abbrev state : State
state = record { connection = some tool; links = live ∷ resting_link ∷ []; requests = live ∷ [] }

abbrev held : State
held = record {
  connection = some (record tool { paused = true });
  links = record live { status = status_paused; held_paused = true } ∷ resting_link ∷ [];
  requests = record live { status = status_paused; held_paused = true } ∷ [];
}

paused : pause_connection up tool state ≡ (held, true)
unfolding pause_connection each_row each hold
paused = refl

pause-resume_example : resume_connection up (record tool { paused = true }) held ≡ (state, true)
pause-resume_example =
    pause-resume up up tool state held (refl, refl, refl, (λ _. refl), (λ _. refl)) refl refl
      ((λ _. refl), ((λ _. refl), tt)) ((λ _. refl), tt) paused

abbrev ended : State
ended = record {
  connection = none;
  links =
      record live { status = status_revoked }
      ∷ record resting_link { status = status_revoked }
      ∷ [];
  requests = record live { status = status_revoked } ∷ [];
}

disconnected : disconnect_connection up tool true state ≡ (ended, true)
unfolding disconnect_connection each_row each revoke_link close_request
disconnected = refl

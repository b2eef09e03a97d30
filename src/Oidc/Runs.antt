-- ===== src/Oidc/Runs.antt =====
-- Runs of the provider (routes/oidc.go): every request that changes what it keeps, one after the
-- other, with any luck.
use revoked.Prelude.{
  ℕ, String, Bool, not, Option, none, some, List, [], ◌∷◌, ◌==◌, if◌then◌else◌, Verdict, refused,
  allowed,
}
use revoked.SignIns.{
  SignIn, World, Transaction, Database, pause_sign_in, resume_sign_in, disconnect_sign_in,
  sign_in_status,
}
use revoked.SignIns.Generation.{start}
use revoked.Oidc.{Library}
use revoked.Oidc.Requests.{Query}
use revoked.Oidc.Shares.{Place, Store}
use revoked.Oidc.Given.{
  Session, Decision, Refusal, Server, Call, is_person, not_authenticated, not_found, internal_error,
}
use revoked.Oidc.Consent.{at_place, consent}
use revoked.Oidc.Handlers.{Outside, app_request, token}

-- The answer of `signInChanged`: where the row stands.
abbrev standing : Option SignIn → String
standing none = ""
standing (some row) = sign_in_status row

-- A change of the row that was found, if it is the person's.
abbrev pub change_found :
    Session
    → Place
    → (SignIn → World → Transaction)
    → Server
    → Option SignIn
    → Verdict Refusal String × Server
change_found auth p change s none = (refused not_found, s)
change_found auth p change s (some row) =
    if not (p.user == auth.id)
    then (refused not_found, s)
    else elim (change row (s.sign_ins p)) as (λ _. Verdict Refusal String × Server) [
      | none ↦ (refused internal_error, s)
      | some w ↦ (allowed (standing w.row), record s { sign_ins = at_place p w s.sign_ins })
    ]

-- `ownedSignIn`, for the place of the row that the database finds under the id, and the change
unfoldable pub change_sign_in :
    Option Session
    → Place
    → (SignIn → World → Transaction)
    → Server
    → Verdict Refusal String × Server
change_sign_in asking p change s =
    elim (is_person asking) as (λ _. Verdict Refusal String × Server) [
      | none ↦ (refused not_authenticated, s)
      | some auth ↦ change_found auth p change s (s.sign_ins p).row
    ]

pub data Request : Type 0 where
  open_request : Call → Outside → Option Session → String → Query → Request
  decide : Call → Option Session → Decision → Request
  redeem : Call → Outside → Query → Request
  pause : Option Session → Place → Database → Request
  resume : Option Session → Place → Database → Request
  disconnect : Option Session → Place → Database → ℕ → Bool → Request

-- A server that was just started, with the vault as it is.
abbrev pub started : Store → Server
started store = record {
  tickets = [];
  codes = [];
  tokens = [];
  sign_ins = λ p. start;
  store = store;
}

module _ (lib : Library) where
  unfoldable pub handle : Request → Server → Server
  unfolding app_request consent token change_sign_in pause_sign_in resume_sign_in disconnect_sign_in
  handle (open_request c out asking issuer params) s =
      (app_request lib c out asking issuer params s).1
  handle (decide c asking body) s = (consent lib c asking body s).1
  handle (redeem c out form) s = (token lib c out form s).1
  handle (pause asking p db) s = (change_sign_in asking p (pause_sign_in db) s).1
  handle (resume asking p db) s = (change_sign_in asking p (resume_sign_in db) s).1
  handle (disconnect asking p db now new_id) s =
      (change_sign_in asking p (disconnect_sign_in db now new_id) s).1

  unfoldable pub serve : List Request → Server → Server
  unfolding handle
  serve [] s = s
  serve (r ∷ rs) s = serve rs (handle r s)

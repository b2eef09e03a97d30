-- ===== src/Oidc/Consent.antt =====
-- The decision on a sign-in: `oidcConsent` (routes/oidc.go).
use revoked.Prelude.{
  String, Bool, not, ◌&&◌, Option, none, some, [], ◌∷◌, ◌==◌, if◌then◌else◌, Verdict, refused,
  allowed, ◌>>=◌,
}
use revoked.SignIns.{World}
use revoked.PasskeyVault.{put, take, passkey_vault_cap}
use revoked.Oidc.{Library, AuthRequest, Ticket, Code, code_ttl, hash_token, oidc_redirect}
use revoked.Oidc.Shares.{Place, same_place, Failure, sign_in_paused, record_invalid, database_error}
use revoked.Oidc.Given.{
  is_person, verify_approval, given, Session, Decision, Refusal, Server, Call, Given,
  not_authenticated, request_invalid, link_record_invalid, paused, internal_error,
}
use revoked.Oidc.Transactions.{transact, Saved}

abbrev pub failure_answer : Failure → Refusal
failure_answer sign_in_paused = paused
failure_answer record_invalid = link_record_invalid
failure_answer database_error = internal_error

abbrev pub answer_with : Given → Verdict Failure Saved → Verdict Refusal (Given × Saved)
answer_with g (refused why) = refused (failure_answer why)
answer_with g (allowed saved) = allowed (g, saved)

abbrev pub at_place : Place → World → (Place → World) → Place → World
at_place p w worlds q = if same_place q p then w else worlds q

abbrev pub place_of : Ticket → Place
place_of t = record { user = t.user; workspace = t.workspace; client_id = t.req.client_id }

abbrev pub code_of : Call → Ticket → Given → Saved → Code
code_of c t g saved = record {
  req = t.req;
  user = t.user;
  workspace = t.workspace;
  scopes = g.granted;
  auth_time = c.now;
  grant = saved.grant;
  generation = saved.generation;
}

-- The ticket answers only the person who opened it, in the workspace it was opened in.
abbrev pub is_theirs : Session → Ticket → Bool
is_theirs auth t = t.user == auth.id && t.workspace == auth.active_workspace

module _ (lib : Library) where
  abbrev pub declined : AuthRequest → String
  declined req = oidc_redirect lib req.redirect_uri (
      ("error", "access_denied")
      ∷ ("error_description", "The person declined.")
      ∷ ("state", req.state)
      ∷ ("iss", req.issuer)
      ∷ [])

  abbrev pub with_code : AuthRequest → String → String
  with_code req code =
      oidc_redirect lib req.redirect_uri
        (("code", code) ∷ ("state", req.state) ∷ ("iss", req.issuer) ∷ [])

  -- What is left when the transaction was taken: its rows, and the code.
  abbrev pub after_approval : Call → Ticket → Given → Saved → Server → Server
  after_approval c t g saved s = record s {
    sign_ins = at_place (place_of t) saved.world s.sign_ins;
    store = saved.store;
    codes =
        put (hash_token lib) passkey_vault_cap c.fresh_key (code_of c t g saved) code_ttl c.now
          s.codes;
  }

  -- An approval, of a ticket that is the person's.
  unfoldable pub approve_ticket :
      Call → Ticket → Decision → Server → Verdict Refusal (Given × Saved)
  unfolding verify_approval given transact
  approve_ticket c t body s =
      let place = place_of t in
      elim (verify_approval c s.store t.user body.ticket body.identity_id body.signature)
        as (λ _. Verdict Refusal (Given × Saved)) [
          | some why ↦ refused why
          | none ↦ given c s.store t.user t.req body >>= λ g.
              answer_with g (transact lib c place t.req body g (s.sign_ins place) s.store)
        ]

  -- What an approval answers and leaves.
  abbrev pub after_decision :
      Call → Ticket → Server → Verdict Refusal (Given × Saved) → Verdict Refusal String × Server
  after_decision c t s (refused why) = (refused why, s)
  after_decision c t s (allowed (g, saved)) =
      (allowed (with_code t.req c.fresh_key), after_approval c t g saved s)

  unfoldable pub decide_ticket :
      Call → Session → Option Ticket → Decision → Server → Verdict Refusal String × Server
  unfolding approve_ticket oidc_redirect put
  decide_ticket c auth none body s = (refused request_invalid, s)
  decide_ticket c auth (some t) body s =
      if not (is_theirs auth t)
      then (refused request_invalid, s)
      else if not body.approve
      then (allowed (declined t.req), s)
      else after_decision c t s (approve_ticket c t body s)

  -- `oidcConsent`, for a body that could be read
  unfoldable pub consent :
      Call → Option Session → Decision → Server → Verdict Refusal String × Server
  unfolding decide_ticket take
  consent c asking body s = elim (is_person asking) as (λ _. Verdict Refusal String × Server) [
    | none ↦ (refused not_authenticated, s)
    | some auth ↦
        let (ticket, left) = take (hash_token lib) body.ticket c.now s.tickets in
        decide_ticket c auth ticket body (record s { tickets = left })
  ]

-- ===== src/Oidc/Ended.antt =====
-- A service that was disconnected reads nothing by what it was given before (routes/oidc.go,
-- services/connectionControls.go).
use revoked.Prelude.{
  ◌≡◌, refl, sym, ap, ◌∙◌, subst, ℕ, String, Bool, true, false, Option, some, List, [], ◌∷◌, eqb,
  any, arith, inl, inr, Bool-cases, Option-cases, refused, allowed,
}
use revoked.SignIns.{
  SignIn, World, Transaction, Database, Event, approve, run_event, run, pause_sign_in,
  resume_sign_in, disconnect_sign_in, record_sign_in, sign_in_allows,
}
use revoked.SignIns.Generation.{on_row-taken, run_event-issued, disconnected_for_good}
use revoked.PasskeyVault.{take, peek, passkey_vault_cap}
use revoked.PasskeyVault.Kept.{Every, Every-map, put-Every, take-Every, taken-Every, peeked-Every}
use revoked.Oidc.{Library, Code, Access, hash_token, code_ttl, access_token_ttl}
use revoked.Oidc.Requests.{Query}
use revoked.Oidc.Shares.{Place, Store}
use revoked.Oidc.Given.{Session, Decision, Server, Call, invalid_token, invalid_grant}
use revoked.Oidc.Transactions.{approval_of}
use revoked.Oidc.Consent.{at_place, place_of, code_of, consent, after_approval}
use revoked.Oidc.Handlers.{
  Outside, place_of_code, place_of_access, access_of, allows, matches_code, app_request,
  redeem_code, token, userinfo,
}
use revoked.Oidc.Runs.{
  Request, open_request, decide, redeem, pause, resume, disconnect, change_sign_in, handle, serve,
  started,
}
use revoked.Oidc.Projected.{
  IsUntouched, Approved, approve_ticket-parts, transact-parts, consent-cases,
}
use revoked.Oidc.Stepping.{
  EventAt, at_place-EventAt, at_place-here, change_sign_in-cases, change_sign_in-taken,
  app_request-IsUntouched, TokenCases, token-cases,
}

-- A generation under which a code was issued at a place.
abbrev pub IsIssued : (Place → World) → Place → ℕ → Type 0
IsIssued worlds p g = any (eqb g) (worlds p).issued ≡ true

-- Every code and access token that is kept was issued by the sign-in of its place.
abbrev pub CoversCode : (Place → World) → Code → Type 0
CoversCode worlds c = IsIssued worlds (place_of_code c) c.generation

abbrev pub CoversAccess : (Place → World) → Access → Type 0
CoversAccess worlds a = IsIssued worlds (place_of_access a) a.generation

abbrev pub IsCovered : Server → Type 0
IsCovered s = Every (CoversCode s.sign_ins) s.codes × Every (CoversAccess s.sign_ins) s.tokens

-- One request: an event or nothing at every place.
abbrev Moves : Server → Server → Type 0
Moves s s' = (p : Place) → EventAt (s.sign_ins p) (s'.sign_ins p)

Moves-IsIssued :
    (s s' : Server) (p : Place) (g : ℕ)
    → Moves s s'
    → IsIssued s.sign_ins p g
    → IsIssued s'.sign_ins p g
Moves-IsIssued s s' p g moves i = elim (moves p) [
  | inl same ↦ rw same i
  | inr (e, moved) ↦ rw moved (run_event-issued e (s.sign_ins p) g i)
]

-- What was covered still is, after any request.
still_covered :
    (s s' : Server)
    → Moves s s'
    → IsCovered s
    → Every (CoversCode s'.sign_ins) s.codes × Every (CoversAccess s'.sign_ins) s.tokens
still_covered s s' moves (codes, tokens) = (
  Every-map s.codes (λ c. Moves-IsIssued s s' (place_of_code c) c.generation moves) codes,
  Every-map s.tokens (λ a. Moves-IsIssued s s' (place_of_access a) a.generation moves) tokens,
)

-- A request that leaves the world of each place as it was, or moves it by one event, and keeps
-- what is given out covered.
abbrev IsLawful : Server → Server → Type 0
IsLawful s s' = Moves s s' × (IsCovered s → IsCovered s')

untouched-IsLawful : (lib : Library) (s s' : Server) → IsUntouched lib s s' → IsLawful s s'
untouched-IsLawful lib s s' (worlds, codes, tokens) =
    ((λ p. inl (ap (λ f. f p) worlds)), λ h. rw (worlds, codes, tokens) h)

change-IsLawful :
    (asking : Option Session) (p : Place) (change : SignIn → World → Transaction) (s : Server)
    → ((row : SignIn) (w : World)
        → (s.sign_ins p).row ≡ some row
        → change row (s.sign_ins p) ≡ some w
        → EventAt (s.sign_ins p) w)
    → IsLawful s (change_sign_in asking p change s).1
change-IsLawful asking p change s k = elim (change_sign_in-cases asking p change s) [
  | inl same ↦ rw same ((λ q. inl refl), λ h. h)
  | inr (row, w, at, done, left) ↦
      let moves : Moves s (record s { sign_ins = at_place p w s.sign_ins }) =
        λ q. at_place-EventAt p q w s.sign_ins (k row w at done) in
      rw left
        (moves, λ h. still_covered s (record s { sign_ins = at_place p w s.sign_ins }) moves h)
]

module _ (lib : Library) where
  Approved-IsLawful :
      (c : Call) (body : Decision) (s s' : Server) → Approved lib c body s s' → IsLawful s s'
  unfolding run_event record_sign_in
  Approved-IsLawful c body s s' (t, g, saved, taken, left) =
      let (signed, gives, saves) = approve_ticket-parts lib c t body s taken in
      let place = place_of t in
      let (done, world, generation, active) =
        transact-parts lib c place t.req body g (s.sign_ins place) s.store saves in
      let after = after_approval lib c t g saved s in
      let moves : Moves s after = λ q.
        at_place-EventAt place q saved.world s.sign_ins
          (inr (approve true c.now (approval_of g done) done.link, world)) in
      let fresh : any (eqb saved.generation) saved.world.issued ≡ true =
        rw (world, generation) (ground arith) in
      let this : IsIssued after.sign_ins place saved.generation =
        rw (at_place-here place saved.world s.sign_ins) fresh in
      rw left (
        moves,
        λ h. (
          put-Every (CoversCode after.sign_ins) (hash_token lib) passkey_vault_cap c.fresh_key
              (code_of c t g saved) code_ttl c.now s.codes this (still_covered s after moves h).0,
          (still_covered s after moves h).1,
        ),
      )

  token-IsLawful :
      (call : Call) (out : Outside) (form : Query) (s s' : Server)
      → TokenCases lib call out form s s'
      → IsLawful s s'
  token-IsLawful call out form s s' (inl same) = rw same ((λ p. inl refl), λ h. h)
  token-IsLawful call out form s s' (inr (inl spent)) = rw spent (
    (λ p. inl refl),
    λ h. (
      take-Every (CoversCode s.sign_ins) (hash_token lib) (form "code") call.now s.codes h.0,
      h.1,
    ),
  )
  token-IsLawful call out form s s' (inr (inr (c, tokens, found, checked, left))) = rw left (
    (λ p. inl refl),
    λ h.
        let this =
          taken-Every (CoversCode s.sign_ins) (hash_token lib) (form "code") call.now s.codes h.0
            found in
        (
          take-Every (CoversCode s.sign_ins) (hash_token lib) (form "code") call.now s.codes h.0,
          put-Every (CoversAccess s.sign_ins) (hash_token lib) passkey_vault_cap call.fresh_key
              (access_of c) access_token_ttl call.now s.tokens this h.1,
        ),
  )

  handle-IsLawful : (r : Request) (s : Server) → IsLawful s (handle lib r s)
  unfolding handle run_event
  handle-IsLawful (open_request c out asking issuer params) s =
      untouched-IsLawful lib s (app_request lib c out asking issuer params s).1
        (app_request-IsUntouched lib c out asking issuer params s)
  handle-IsLawful (decide c asking body) s = elim (consent-cases lib c asking body s) [
    | inl same ↦ untouched-IsLawful lib s (consent lib c asking body s).1 same
    | inr approved ↦
        Approved-IsLawful c body
          (record s { tickets = (take (hash_token lib) body.ticket c.now s.tickets).1 })
          (consent lib c asking body s).1 approved
  ]
  handle-IsLawful (redeem c out form) s =
      token-IsLawful c out form s (token lib c out form s).1 (token-cases lib c out form s)
  handle-IsLawful (pause asking p db) s =
      change-IsLawful asking p (pause_sign_in db) s (λ row w at done.
        inr (Event.pause db, on_row-taken (pause_sign_in db) (s.sign_ins p) w row at done))
  handle-IsLawful (resume asking p db) s =
      change-IsLawful asking p (resume_sign_in db) s (λ row w at done.
        inr (Event.resume db, on_row-taken (resume_sign_in db) (s.sign_ins p) w row at done))
  handle-IsLawful (disconnect asking p db now new_id) s =
      change-IsLawful asking p (disconnect_sign_in db now new_id) s (λ row w at done. inr (
        Event.disconnect db now new_id,
        on_row-taken (disconnect_sign_in db now new_id) (s.sign_ins p) w row at done,
      ))

  serve-IsCovered : (rs : List Request) (s : Server) → IsCovered s → IsCovered (serve lib rs s)
  unfolding serve
  serve-IsCovered [] s h = h
  serve-IsCovered (r ∷ rs) s h = serve-IsCovered rs (handle lib r s) ((handle-IsLawful r s).1 h)

  -- At each place, a run of the provider is a run of that place's sign-in.
  serve-run :
      (rs : List Request) (s : Server) (p : Place)
      → (es : List Event) × ((serve lib rs s).sign_ins p ≡ run es (s.sign_ins p))
  unfolding serve run
  serve-run [] s p = ([], refl)
  serve-run (r ∷ rs) s p =
      let (es, at) = serve-run rs (handle lib r s) p in
      elim ((handle-IsLawful r s).0 p) [
        | inl same ↦ (es, at ∙ ap (run es) same)
        | inr (e, moved) ↦ (e ∷ es, at ∙ ap (run es) moved)
      ]

  -- What was issued at a place before its disconnect allows nothing after.
  allows_nothing :
      {answer : String} {s' : Server} (before later : List Request) (store : Store)
      (asking : Option Session) (p : Place) (db : Database) (now : ℕ) (new_id : Bool) (g : ℕ)
      → change_sign_in asking p
          (disconnect_sign_in db now new_id)
          (serve lib before (started store))
        ≡ (allowed answer, s')
      → IsIssued (serve lib before (started store)).sign_ins p g
      → allows (serve lib later s') p g ≡ false
  allows_nothing {answer} {s'} before later store asking p db now new_id g taken issued =
      let s = serve lib before (started store) in
      let (row, w, at, done, left) =
        change_sign_in-taken asking p (disconnect_sign_in db now new_id) s taken in
      let (es, world) = serve-run before (started store) p in
      let (fs, world') = serve-run later s' p in
      let here : s'.sign_ins p ≡ w = ap (λ x. x.sign_ins p) left ∙ at_place-here p w s.sign_ins in
      let ended =
        disconnected_for_good es fs db now new_id row w g (subst (λ x. x.row ≡ some row) world at)
          (subst (λ x. disconnect_sign_in db now new_id row x ≡ some w) world done)
          (subst (λ x. any (eqb g) x.issued ≡ true) world issued) in
      subst (λ x. sign_in_allows x.row g ≡ false) (sym (world' ∙ ap (run fs) here)) ended

  -- After a disconnect that was answered with success, an access token that was issued for that
  -- person, workspace and service before it reads nothing, at any time, whatever is requested in
  -- between: further sign-ins, pauses, resumes, disconnects and redeemed codes.
  pub disconnected_token_reads_nothing :
      {answer : String} {s' : Server} (before later : List Request) (store : Store)
      (asking : Option Session) (db : Database) (now : ℕ) (new_id : Bool) (a : Access)
      (key key' : String) (at : ℕ) (call : Call) (out : Outside)
      → peek (hash_token lib) key at (serve lib before (started store)).tokens ≡ some a
      → change_sign_in asking
          (place_of_access a)
          (disconnect_sign_in db now new_id)
          (serve lib before (started store))
        ≡ (allowed answer, s')
      → peek (hash_token lib) key' call.now (serve lib later s').tokens ≡ some a
      → out.within_rate ≡ true
      → userinfo lib call out key' (serve lib later s') ≡ refused invalid_token
  unfolding userinfo
  disconnected_token_reads_nothing before later store asking db now new_id a key key' at call out
        held taken found within =
      let covered = serve-IsCovered before (started store) (tt, tt) in
      let issued =
        peeked-Every (CoversAccess (serve lib before (started store)).sign_ins) (hash_token lib) key
          at (serve lib before (started store)).tokens covered.1 held in
      let ended =
        allows_nothing before later store asking (place_of_access a) db now new_id a.generation
          taken issued in
      rw (within, found, ended, userinfo) refl

  -- After a disconnect that was answered with success, a code that was issued for that person,
  -- workspace and service before it gives no tokens, at any time, whatever is requested in between.
  pub disconnected_code_gives_nothing :
      {answer : String} {s' : Server} (before later : List Request) (store : Store)
      (asking : Option Session) (db : Database) (now : ℕ) (new_id : Bool) (c : Code) (key : String)
      (at : ℕ) (call : Call) (out : Outside) (form : Query)
      → peek (hash_token lib) key at (serve lib before (started store)).codes ≡ some c
      → change_sign_in asking
          (place_of_code c)
          (disconnect_sign_in db now new_id)
          (serve lib before (started store))
        ≡ (allowed answer, s')
      → redeem_code lib call out form c (serve lib later s') ≡ refused invalid_grant
  unfolding redeem_code
  disconnected_code_gives_nothing before later store asking db now new_id c key at call out form
        held taken =
      let covered = serve-IsCovered before (started store) (tt, tt) in
      let issued =
        peeked-Every (CoversCode (serve lib before (started store)).sign_ins) (hash_token lib) key
          at (serve lib before (started store)).codes covered.0 held in
      let ended =
        allows_nothing before later store asking (place_of_code c) db now new_id c.generation taken
          issued in
      elim (Bool-cases (matches_code lib form c)) [
        | inl fits ↦ elim (Option-cases (out.find_user c.user)) [
          | inl nobody ↦ rw (fits, nobody, redeem_code) refl
          | inr (u, person) ↦ rw (fits, person, ended, redeem_code) refl
        ]
        | inr other ↦ rw (other, redeem_code) refl
      ]

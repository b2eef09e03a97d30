-- ===== src/Oidc/Once.antt =====
-- A code is spent when it is presented (routes/oidc.go).
use revoked.Prelude.{
  ◌≡◌, refl, sym, subst, String, Bool, true, false, not, Option, none, some, List, [], ◌∷◌, ◌==◌,
  all, arith, inl, inr, Bool-cases, refused, Verdict-cases,
}
use revoked.SignIns.{SignIn, World, Transaction, pause_sign_in, resume_sign_in, disconnect_sign_in}
use revoked.PasskeyVault.{lookup, take, passkey_vault_cap}
use revoked.PasskeyVault.Kept.{lookup-put_absent, lookup-take_absent, lookup-take_spent}
use revoked.Oidc.{Library, Code, hash_token, code_ttl}
use revoked.Oidc.Requests.{Query}
use revoked.Oidc.Given.{Session, Server, Call, invalid_grant}
use revoked.Oidc.Shares.{Place}
use revoked.Oidc.Consent.{code_of}
use revoked.Oidc.Handlers.{Outside, redeem_code, redeem_taken, token}
use revoked.Oidc.Runs.{
  Request, open_request, decide, redeem, pause, resume, disconnect, change_sign_in, handle, serve,
}
use revoked.Oidc.Projected.{consent-cases}
use revoked.Oidc.Stepping.{change_sign_in-cases, app_request-IsUntouched, token-cases}

module _ (lib : Library) where
  -- A request that does not issue another code under the same hash.
  abbrev pub spares : String → Request → Bool
  spares key (decide c asking body) = not (hash_token lib c.fresh_key == hash_token lib key)
  spares key _ = true

  abbrev pub IsSpent : String → Server → Type 0
  IsSpent key s = lookup (hash_token lib key) s.codes ≡ none

  change-IsSpent :
      (key : String) (s : Server) (asking : Option Session) (p : Place)
      (change : SignIn → World → Transaction)
      → IsSpent key s
      → IsSpent key (change_sign_in asking p change s).1
  change-IsSpent key s asking p change spent = elim (change_sign_in-cases asking p change s) [
    | inl same ↦ rw same spent
    | inr (row, w, at, done, left) ↦ rw left spent
  ]

  handle-IsSpent :
      (key : String) (r : Request) (s : Server)
      → spares key r ≡ true
      → IsSpent key s
      → IsSpent key (handle lib r s)
  unfolding handle
  handle-IsSpent key (open_request c out asking issuer params) s fresh spent =
      let (worlds, codes, tokens) = app_request-IsUntouched lib c out asking issuer params s in
      rw codes spent
  handle-IsSpent key (decide c asking body) s fresh spent =
      elim (consent-cases lib c asking body s) [
        | inl (worlds, codes, tokens) ↦ rw codes spent
        | inr (t, g, saved, taken, left) ↦ rw left (
            lookup-put_absent (hash_token lib) passkey_vault_cap c.fresh_key (code_of c t g saved)
              code_ttl c.now (hash_token lib key) s.codes (ground (arith, fresh)) spent)
      ]
  handle-IsSpent key (redeem c out form) s fresh spent = elim (token-cases lib c out form s) [
    | inl same ↦ rw same spent
    | inr (inl left) ↦
        rw left (
          lookup-take_absent (hash_token lib) (form "code") c.now (hash_token lib key) s.codes
            spent)
    | inr (inr (code, tokens, found, checked, left)) ↦
        rw left (
          lookup-take_absent (hash_token lib) (form "code") c.now (hash_token lib key) s.codes
            spent)
  ]
  handle-IsSpent key (pause asking p db) s fresh spent =
      change-IsSpent key s asking p (pause_sign_in db) spent
  handle-IsSpent key (resume asking p db) s fresh spent =
      change-IsSpent key s asking p (resume_sign_in db) spent
  handle-IsSpent key (disconnect asking p db now new_id) s fresh spent =
      change-IsSpent key s asking p (disconnect_sign_in db now new_id) spent

  serve-IsSpent :
      (key : String) (rs : List Request) (s : Server)
      → all (spares key) rs ≡ true
      → IsSpent key s
      → IsSpent key (serve lib rs s)
  unfolding serve
  serve-IsSpent key [] s fresh spent = spent
  serve-IsSpent key (r ∷ rs) s fresh spent =
      serve-IsSpent key rs (handle lib r s) (ground (arith, fresh))
        (handle-IsSpent key r s (ground (arith, fresh)) spent)

  spent_gives_nothing :
      (call : Call) (out : Outside) (form : Query) (s : Server)
      → IsSpent (form "code") s
      → (form "grant_type" == "authorization_code") ≡ true
      → out.within_rate ≡ true
      → (token lib call out form s).0 ≡ refused invalid_grant
  unfolding token take
  spent_gives_nothing call out form s spent grant within = elim (Bool-cases (form "code" == "")) [
    | inl empty ↦ rw (within, grant, empty, token) refl
    | inr named ↦ rw (within, grant, named, spent, token) refl
  ]

  redeem_taken-codes :
      (call : Call) (out : Outside) (form : Query) (o : Option Code) (s : Server)
      → (redeem_taken lib call out form o s).1.codes ≡ s.codes
  redeem_taken-codes call out form none s = refl
  redeem_taken-codes call out form (some c) s =
      elim (Verdict-cases (redeem_code lib call out form c s)) [
        | inl (why, no_tokens) ↦ rw no_tokens refl
        | inr (tokens, done) ↦ rw done refl
      ]

  token-IsSpent :
      (call : Call) (out : Outside) (form : Query) (s : Server)
      → (form "code" == "") ≡ false
      → (form "grant_type" == "authorization_code") ≡ true
      → out.within_rate ≡ true
      → IsSpent (form "code") (token lib call out form s).1
  unfolding token
  token-IsSpent call out form s named grant within =
      let taken = take (hash_token lib) (form "code") call.now s.codes in
      let same = redeem_taken-codes call out form taken.0 (record s { codes = taken.1 }) in
      let spent = lookup-take_spent (hash_token lib) (form "code") call.now s.codes named in
      rw (within, grant, token)
        (subst (λ codes. lookup (hash_token lib (form "code")) codes ≡ none) (sym same) spent)

  -- A code that was presented once, rightly or wrongly, gives no tokens when it is presented again,
  -- by whoever and whenever, whatever is requested in between, unless a later consent happens to
  -- issue a code with the same hash.
  pub code_is_spent_once :
      (first again : Call) (out out' : Outside) (form form' : Query) (between : List Request)
      (s : Server)
      → (form "code" == "") ≡ false
      → (form "grant_type" == "authorization_code") ≡ true
      → out.within_rate ≡ true
      → form' "code" ≡ form "code"
      → (form' "grant_type" == "authorization_code") ≡ true
      → out'.within_rate ≡ true
      → all (spares (form "code")) between ≡ true
      → (token lib again out' form' (serve lib between (token lib first out form s).1)).0
        ≡ refused invalid_grant
  code_is_spent_once first again out out' form form' between s named grant within same grant'
        within' fresh =
      let key = form "code" in
      let spent =
        serve-IsSpent key between (token lib first out form s).1 fresh
          (token-IsSpent first out form s named grant within) in
      spent_gives_nothing again out' form' (serve lib between (token lib first out form s).1)
        (subst (λ k. IsSpent k (serve lib between (token lib first out form s).1)) (sym same) spent)
        grant' within'

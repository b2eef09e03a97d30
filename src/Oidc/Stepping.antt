-- ===== src/Oidc/Stepping.antt =====
-- What each request of the provider leaves (routes/oidc.go).
use revoked.Prelude.{
  ◌≡◌, refl, sym, ap, ◌∙◌, subst, String, true, not, Option, none, some, ◌==◌, arith, eq_iff, ◌⊎◌,
  inl, inr, Bool-cases, Option-cases, Verdict, refused, allowed, Verdict-cases,
}
use revoked.SignIns.{SignIn, World, Transaction, Event, run_event}
use revoked.PasskeyVault.{take}
use revoked.Oidc.{Library, Code, hash_token}
use revoked.Oidc.Requests.{Query, client_not_identified, refusal, check_request}
use revoked.Oidc.Shares.{Place, same_place}
use revoked.Oidc.Given.{
  Session, Server, Call, is_person, not_found, internal_error, not_authenticated,
}
use revoked.Oidc.Transactions.{is_paused}
use revoked.Oidc.Consent.{at_place}
use revoked.Oidc.Handlers.{
  Outside, Tokens, forwarded, app_request, redeem_code, redeem_taken, keep_access, token,
}
use revoked.Oidc.Projected.{IsUntouched}
use revoked.Oidc.Runs.{change_found, change_sign_in}

refused_not_allowed {ℓ κ} :
    {Why : Type κ} {Answer : Type ℓ} {why : Why} {answer : Answer}
    → Path (Verdict Why Answer) (refused why) (allowed answer)
    → ⊥
refused_not_allowed h = cc

-- An event, or nothing, of the sign-in at a place.
abbrev pub EventAt : World → World → Type 0
EventAt w w' = (w' ≡ w) ⊎ ((e : Event) × (w' ≡ run_event e w))

same_place-eq : (p q : Place) → same_place p q ≡ true → p ≡ q
same_place-eq p q h =
    let user : p.user ≡ q.user = ground (arith, h, eq_iff p.user q.user) in
    let workspace : p.workspace ≡ q.workspace = ground (arith, h, eq_iff p.workspace q.workspace) in
    let client : p.client_id ≡ q.client_id = ground (arith, h, eq_iff p.client_id q.client_id) in cc

pub at_place-here : (p : Place) (w : World) (worlds : Place → World) → at_place p w worlds p ≡ w
at_place-here p w worlds =
    let here : same_place p p ≡ true = ground (
      arith,
      eq_iff p.user p.user,
      eq_iff p.workspace p.workspace,
      eq_iff p.client_id p.client_id,
    ) in
    rw here refl

pub at_place-EventAt :
    (p q : Place) (w : World) (worlds : Place → World)
    → EventAt (worlds p) w
    → EventAt (worlds q) (at_place p w worlds q)
at_place-EventAt p q w worlds h = elim (Bool-cases (same_place q p)) [
  | inl here ↦ rw here (subst (λ r. EventAt (worlds r) w) (sym (same_place-eq q p here)) h)
  | inr elsewhere ↦ rw elsewhere (inl refl)
]

change_found-cases :
    (auth : Session) (p : Place) (change : SignIn → World → Transaction) (s : Server)
    (o : Option SignIn)
    → ((change_found auth p change s o).1 ≡ s)
      ⊎ ((row : SignIn) × (w : World) × (o ≡ some row)
          × (change row (s.sign_ins p) ≡ some w)
          × ((change_found auth p change s o).1 ≡ record s { sign_ins = at_place p w s.sign_ins }))
change_found-cases auth p change s none = inl refl
change_found-cases auth p change s (some row) = elim (Bool-cases (not (p.user == auth.id))) [
  | inl other ↦ rw other (inl refl)
  | inr own ↦ elim (Option-cases (change row (s.sign_ins p))) [
    | inl failed ↦ rw (own, failed) (inl refl)
    | inr (w, done) ↦ rw (own, done) (inr (row, w, refl, done, refl))
  ]
]

-- A change of a row by its owner, or nothing.
pub change_sign_in-cases :
    (asking : Option Session) (p : Place) (change : SignIn → World → Transaction) (s : Server)
    → ((change_sign_in asking p change s).1 ≡ s)
      ⊎ ((row : SignIn) × (w : World) × ((s.sign_ins p).row ≡ some row)
          × (change row (s.sign_ins p) ≡ some w)
          × ((change_sign_in asking p change s).1
              ≡ record s { sign_ins = at_place p w s.sign_ins }))
unfolding change_sign_in
change_sign_in-cases asking p change s = elim (Option-cases (is_person asking)) [
  | inl nobody ↦ rw (nobody, change_sign_in) (inl refl)
  | inr (auth, person) ↦
      rw (person, change_sign_in) (change_found-cases auth p change s (s.sign_ins p).row)
]

change_found-taken :
    {answer : String} {s' : Server} (auth : Session) (p : Place)
    (change : SignIn → World → Transaction) (s : Server) (o : Option SignIn)
    → change_found auth p change s o ≡ (allowed answer, s')
    → (row : SignIn) × (w : World) × (o ≡ some row)
      × (change row (s.sign_ins p) ≡ some w)
      × (s' ≡ record s { sign_ins = at_place p w s.sign_ins })
change_found-taken auth p change s none h = cc
change_found-taken {answer} {s'} auth p change s (some row) h =
    elim (Bool-cases (not (p.user == auth.id))) [
      | inl other ↦
          let refusal : (change_found auth p change s (some row)).0 ≡ refused not_found =
            rw other refl in
          absurd (refused_not_allowed (sym refusal ∙ ap (λ r. r.0) h))
      | inr own ↦ elim (Option-cases (change row (s.sign_ins p))) [
        | inl failed ↦
            let refusal : (change_found auth p change s (some row)).0 ≡ refused internal_error =
              rw (own, failed) refl in
            absurd (refused_not_allowed (sym refusal ∙ ap (λ r. r.0) h))
        | inr (w, done) ↦
            let after : (change_found auth p change s (some row)).1
                ≡ record s { sign_ins = at_place p w s.sign_ins } =
              rw (own, done) refl in
            (row, w, refl, done, sym (ap (λ r. r.1) h) ∙ after)
      ]
    ]

-- A change that is answered with success found the row and was taken.
pub change_sign_in-taken :
    {answer : String} {s' : Server} (asking : Option Session) (p : Place)
    (change : SignIn → World → Transaction) (s : Server)
    → change_sign_in asking p change s ≡ (allowed answer, s')
    → (row : SignIn) × (w : World) × ((s.sign_ins p).row ≡ some row)
      × (change row (s.sign_ins p) ≡ some w)
      × (s' ≡ record s { sign_ins = at_place p w s.sign_ins })
unfolding change_sign_in
change_sign_in-taken {answer} {s'} asking p change s h = elim (Option-cases (is_person asking)) [
  | inl nobody ↦
      let refusal : (change_sign_in asking p change s).0 ≡ refused not_authenticated =
        rw (nobody, change_sign_in) refl in
      absurd (refused_not_allowed (sym refusal ∙ ap (λ r. r.0) h))
  | inr (auth, person) ↦
      let found : change_sign_in asking p change s
          ≡ change_found auth p change s (s.sign_ins p).row =
        rw (person, change_sign_in) refl in
      change_found-taken auth p change s (s.sign_ins p).row (sym found ∙ h)
]

module _ (lib : Library) where
  pub app_request-IsUntouched :
      (c : Call) (out : Outside) (asking : Option Session) (issuer : String) (params : Query)
      (s : Server)
      → IsUntouched lib s (app_request lib c out asking issuer params s).1
  unfolding app_request
  app_request-IsUntouched c out asking issuer params s = elim (Option-cases (is_person asking)) [
    | inl nobody ↦ rw (nobody, app_request) (refl, refl, refl)
    | inr (auth, person) ↦ elim (Bool-cases (not out.within_rate)) [
      | inl over ↦ rw (person, over, app_request) (refl, refl, refl)
      | inr within ↦ elim (Verdict-cases (check_request lib issuer (forwarded params))) [
        | inl (client_not_identified, no_client) ↦
            rw (person, within, no_client, app_request) (refl, refl, refl)
        | inl (refusal address, says) ↦ rw (person, within, says, app_request) (refl, refl, refl)
        | inr (req, fine) ↦
            let p : Place = record {
              user = auth.id;
              workspace = auth.active_workspace;
              client_id = req.client_id;
            } in
            elim (Bool-cases (is_paused (s.sign_ins p).row)) [
              | inl waits ↦ rw (person, within, fine, waits, app_request) (refl, refl, refl)
              | inr runs ↦ rw (person, within, fine, runs, app_request) (refl, refl, refl)
            ]
      ]
    ]
  ]

  -- A code that was redeemed, and what that left.
  abbrev pub Redeemed : Call → Outside → Query → Server → Server → Type 0
  Redeemed call out form s s' =
      let taken = take (hash_token lib) (form "code") call.now s.codes in
      (c : Code) × (tokens : Tokens) × (taken.0 ≡ some c)
      × (redeem_code lib call out form c (record s { codes = taken.1 }) ≡ allowed tokens)
      × (s' ≡ keep_access lib call c (record s { codes = taken.1 }))

  abbrev pub TokenCases : Call → Outside → Query → Server → Server → Type 0
  TokenCases call out form s s' =
      (s' ≡ s)
      ⊎ (s' ≡ record s { codes = (take (hash_token lib) (form "code") call.now s.codes).1 })
      ⊎ Redeemed call out form s s'

  redeem_taken-cases :
      (call : Call) (out : Outside) (form : Query) (s : Server) (o : Option Code) (left : Server)
      → (take (hash_token lib) (form "code") call.now s.codes).0 ≡ o
      → left ≡ record s { codes = (take (hash_token lib) (form "code") call.now s.codes).1 }
      → TokenCases call out form s (redeem_taken lib call out form o left).1
  redeem_taken-cases call out form s none left found rest = inr (inl rest)
  redeem_taken-cases call out form s (some c) left found rest =
      elim (Verdict-cases (redeem_code lib call out form c left)) [
        | inl (why, no_tokens) ↦ rw no_tokens (inr (inl rest))
        | inr (tokens, done) ↦ rw done (
            inr (
              inr (
                c,
                tokens,
                found,
                subst (λ x. redeem_code lib call out form c x ≡ allowed tokens) rest done,
                ap (keep_access lib call c) rest,
              )))
      ]

  pub token-cases :
      (call : Call) (out : Outside) (form : Query) (s : Server)
      → TokenCases call out form s (token lib call out form s).1
  unfolding token
  token-cases call out form s = elim (Bool-cases (not out.within_rate)) [
    | inl over ↦ rw (over, token) (inl refl)
    | inr within ↦ elim (Bool-cases (not (form "grant_type" == "authorization_code"))) [
      | inl other ↦ rw (within, other, token) (inl refl)
      | inr grant ↦
          rw (within, grant, token)
            (redeem_taken-cases call out form s
              (take (hash_token lib) (form "code") call.now s.codes).0
              (record s { codes = (take (hash_token lib) (form "code") call.now s.codes).1 }) refl
              refl)
    ]
  ]

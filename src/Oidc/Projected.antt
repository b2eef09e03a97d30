-- ===== src/Oidc/Projected.antt =====
-- A run of the provider is, at each place, a run of that place's sign-in (routes/oidc.go).
use revoked.Prelude.{
  ◌≡◌, refl, sym, ap, ◌∙◌, subst, false, not, Option, none, some, ◌⊎◌, inl, inr, Bool-cases,
  Option-cases, Verdict, refused, allowed, Verdict-cases, ◌>>=◌, allowed_parts, past_guard,
  past_check, same_answer,
}
use revoked.SignIns.{World, Event, run_event, record_sign_in}
use revoked.Oidc.{Library, AuthRequest, Ticket, hash_token}
use revoked.PasskeyVault.{take}
use revoked.Oidc.Shares.{Place, Store, Failure}
use revoked.Oidc.Given.{Session, Decision, Server, Call, Given, verify_approval, is_person, given}
use revoked.Oidc.Transactions.{
  Saved, Sharing, share, transact, is_paused, signed_in, approval_of, save_row, file_section,
}
use revoked.Oidc.Consent.{
  answer_with, place_of, is_theirs, approve_ticket, decide_ticket, consent, after_approval,
}

-- An event, or nothing, of the sign-in at a place.
abbrev pub EventAt : World → World → Type 0
EventAt w w' = (w' ≡ w) ⊎ ((e : Event) × (w' ≡ run_event e w))

module _ (lib : Library) where
  -- What a transaction that was taken saves: the row of an approved sign-in, whose generation the
  -- code has.
  pub transact-parts :
      {saved : Saved} (c : Call) (p : Place) (req : AuthRequest) (body : Decision) (g : Given)
      (w : World) (s : Store)
      → transact lib c p req body g w s ≡ allowed saved
      → (done : Sharing) × (saved.world ≡ signed_in c (approval_of g done) done w)
        × (saved.generation ≡ (record_sign_in c.now (approval_of g done) w.row).generation)
        × (is_paused w.row ≡ false)
  unfolding transact
  transact-parts {saved} c p req body g w s h =
      let (active, rest) = past_guard (is_paused w.row) _ _ h in
      let (done, shared, rest) =
        allowed_parts (share lib c p req body g w.link s)
          (λ done. file_section c.writes p done >>= save_row c g done w) rest in
      let (filed, section, last) =
        allowed_parts (file_section c.writes p done) (save_row c g done w) rest in
      let (taken, same) = past_guard (not c.saves_sign_in) _ _ last in
      (
        done,
        ap (λ r. r.world) (sym (same_answer same)),
        ap (λ r. r.generation) (sym (same_answer same)),
        active,
      )

  answer_with-allowed :
      {g' : Given} {saved : Saved} (g : Given) (v : Verdict Failure Saved)
      → answer_with g v ≡ allowed (g', saved)
      → (g ≡ g') × (v ≡ allowed saved)
  answer_with-allowed g (refused why) h = cc
  answer_with-allowed g (allowed found) h =
      (ap (λ r. r.0) (same_answer h), ap (λ r. allowed r.1) (same_answer h))

  -- An approval that goes through was signed by the person, gives what `given` says, and its
  -- transaction was taken.
  pub approve_ticket-parts :
      {g : Given} {saved : Saved} (c : Call) (t : Ticket) (body : Decision) (s : Server)
      → approve_ticket lib c t body s ≡ allowed (g, saved)
      → (verify_approval c s.store t.user body.ticket body.identity_id body.signature ≡ none)
        × (given c s.store t.user t.req body ≡ allowed g)
        × (transact lib c (place_of t) t.req body g (s.sign_ins (place_of t)) s.store
            ≡ allowed saved)
  unfolding approve_ticket
  approve_ticket-parts {g} {saved} c t body s h =
      let place = place_of t in
      let (signed, rest) =
        past_check (verify_approval c s.store t.user body.ticket body.identity_id body.signature) _
          h in
      let (found, gives, rest) =
        allowed_parts (given c s.store t.user t.req body)
          (λ g. answer_with g (transact lib c place t.req body g (s.sign_ins place) s.store))
          rest in
      let (same, taken) =
        answer_with-allowed found (transact lib c place t.req body found (s.sign_ins place) s.store)
          rest in
      (
        signed,
        gives ∙ ap allowed same,
        subst (λ x. transact lib c place t.req body x (s.sign_ins place) s.store ≡ allowed saved)
            same taken,
      )

  -- Nothing of the sign-ins, codes and tokens is changed.
  abbrev pub IsUntouched : Server → Server → Type 0
  IsUntouched s s' = (s'.sign_ins ≡ s.sign_ins) × (s'.codes ≡ s.codes) × (s'.tokens ≡ s.tokens)

  -- An approval that went through, and what it left.
  abbrev pub Approved : Call → Decision → Server → Server → Type 0
  Approved c body s s' =
      (t : Ticket) × (g : Given) × (saved : Saved) × (approve_ticket lib c t body s
        ≡ allowed (g, saved))
      × (s' ≡ after_approval lib c t g saved s)

  decide_ticket-cases :
      (c : Call) (auth : Session) (o : Option Ticket) (body : Decision) (s : Server)
      → IsUntouched s (decide_ticket lib c auth o body s).1
        ⊎ Approved c body s (decide_ticket lib c auth o body s).1
  unfolding decide_ticket
  decide_ticket-cases c auth none body s = inl (refl, refl, refl)
  decide_ticket-cases c auth (some t) body s = elim (Bool-cases (not (is_theirs auth t))) [
    | inl other ↦ rw other (inl (refl, refl, refl))
    | inr theirs ↦ elim (Bool-cases (not body.approve)) [
      | inl declines ↦ rw (theirs, declines) (inl (refl, refl, refl))
      | inr approves ↦ elim (Verdict-cases (approve_ticket lib c t body s)) [
        | inl (why, no_code) ↦ rw (theirs, approves, no_code) (inl (refl, refl, refl))
        | inr ((g, saved), taken) ↦ rw (theirs, approves, taken) (inr (t, g, saved, taken, refl))
      ]
    ]
  ]

  pub consent-cases :
      (c : Call) (asking : Option Session) (body : Decision) (s : Server)
      → IsUntouched s (consent lib c asking body s).1
        ⊎ Approved c body
            (record s { tickets = (take (hash_token lib) body.ticket c.now s.tickets).1 })
            (consent lib c asking body s).1
  unfolding consent
  consent-cases c asking body s = elim (Option-cases (is_person asking)) [
    | inl nobody ↦ rw (nobody, consent) (inl (refl, refl, refl))
    | inr (auth, person) ↦
        let taken = take (hash_token lib) body.ticket c.now s.tickets in
        rw (person, consent)
          (decide_ticket-cases c auth taken.0 body (record s { tickets = taken.1 }))
  ]

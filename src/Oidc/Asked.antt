-- ===== src/Oidc/Asked.antt =====
-- An approval gives only what was asked for and chosen, and is signed (routes/oidc.go).
use Prim.Native.String
use revoked.Prelude.{
  ◌≡◌, refl, subst, ◌≤◌, ◌+◌, String, Bool, true, false, not, ◌&&◌, ◌||◌, Option, none, some, List,
  [], ◌∷◌, ◌==◌, all, keep, length, contains, all_add, all-keep, all-keep_still, ltb, arith, eq_iff,
  inl, inr, Option-cases, allowed, allowed_parts, past_guard, same_answer,
}
use revoked.Links.{status_active}
use revoked.SignIns.{oidc_scope_openid}
use revoked.Oidc.{Library, AuthRequest, Ticket, scope_profile}
use revoked.Oidc.Shares.{
  Store, NameChoice, Identity, find_identity, check_sign_in_name, sign_in_name_key,
  name_from_record,
}
use revoked.Oidc.Given.{
  Decision, Server, Call, Given, request_invalid, name_invalid, consent_prefix, signing_key,
  verify_approval, lookup_text, has_key, named_keys, choose, with_name, without_profile, give,
  name_of, given,
}
use revoked.Oidc.Transactions.{Saved, is_paused}
use revoked.Oidc.Consent.{place_of, approve_ticket}
use revoked.Oidc.Granted.{IsShared, transact-IsShared}
use revoked.Oidc.Projected.{approve_ticket-parts, transact-parts}

-- The name's own entry.
abbrev pub is_named : Option NameChoice → String → Bool
is_named none id = false
is_named (some n) id = n.kind == name_from_record && n.id == id

-- An entry that was chosen: the body's, for a key that was asked for, or the name's.
abbrev pub is_chosen : AuthRequest → Decision → Option NameChoice → String × String → Bool
is_chosen req body name choice =
    (contains req.link_keys choice.0 && lookup_text body.links choice.0 == choice.1)
    || (choice.0 == sign_in_name_key && is_named name choice.1)

contains_self-all :
    (xs ys : List String)
    → ((x : String) → contains xs x ≡ true → contains ys x ≡ true)
    → all (contains ys) xs ≡ true
contains_self-all [] ys k = refl
contains_self-all (x ∷ xs) ys k =
    let head = k x (ground (arith, eq_iff x x)) in
    let tail = contains_self-all xs ys (λ y h. k y (ground (arith, h))) in
    ground (arith, head, tail)

choose-is_chosen :
    (req : AuthRequest) (body : Decision) (name : Option NameChoice) (keys : List String)
    → all (contains req.link_keys) keys ≡ true
    → all (is_chosen req body name) (choose keys body.links) ≡ true
choose-is_chosen req body name [] asked = refl
choose-is_chosen req body name (key ∷ keys) asked = ground (
  arith,
  choose-is_chosen req body name keys,
  eq_iff (lookup_text body.links key) (lookup_text body.links key),
)

with_name-is_chosen :
    (req : AuthRequest) (body : Decision) (choices : List (String × String))
    (name : Option NameChoice)
    → all (is_chosen req body name) choices ≡ true
    → all (is_chosen req body name) (with_name choices name) ≡ true
with_name-is_chosen req body choices none h = h
with_name-is_chosen req body choices (some n) h = ground (
  arith,
  h,
  eq_iff n.id n.id,
  all_add (is_chosen req body (some n)) choices (sign_in_name_key, n.id),
)

-- The keys that the code is given are those of the choices.
named_keys-has_key :
    (keys : List String) (choices : List (String × String))
    → all (has_key choices) (named_keys keys choices) ≡ true
named_keys-has_key keys choices = ground (
  arith,
  all-keep (has_key choices) keys,
  all_add (has_key choices) (keep (has_key choices) keys) sign_in_name_key,
)

-- What a signature that was accepted shows.
abbrev pub IsSigned : Call → Store → String → Decision → Type 0
IsSigned c s user body =
    (i : Identity) × (find_identity body.identity_id s ≡ some i)
    × (i.user ≡ user)
    × (i.status ≡ status_active)
    × (c.verify_signature (signing_key i.certificate i.public_key)
          (String.◌++◌ consent_prefix body.ticket) body.signature
        ≡ true)

verify_approval-IsSigned :
    (c : Call) (s : Store) (user : String) (body : Decision)
    → verify_approval c s user body.ticket body.identity_id body.signature ≡ none
    → IsSigned c s user body
unfolding verify_approval
verify_approval-IsSigned c s user body h = elim (Option-cases (find_identity body.identity_id s)) [
  | inl nobody ↦ absurd (ground (arith, nobody, h))
  | inr (i, found) ↦ (
    i,
    found,
    ground (arith, found, h, eq_iff i.user user),
    ground (arith, found, h, eq_iff i.status status_active),
    ground (arith, found, h),
  )
]

-- A scope that the service asked for and the person left in.
abbrev pub is_agreed : AuthRequest → Decision → String → Bool
is_agreed req body s = s == oidc_scope_openid || (contains req.scopes s && contains body.scopes s)

all-agreed :
    (req : AuthRequest) (body : Decision) (scopes : List String)
    → all (contains req.scopes) scopes ≡ true
    → all (contains body.scopes) scopes ≡ true
    → all (is_agreed req body) scopes ≡ true
all-agreed req body [] asked chosen = refl
all-agreed req body (s ∷ ss) asked chosen = ground (arith, all-agreed req body ss)

agreed :
    (req : AuthRequest) (body : Decision)
    → all (is_agreed req body) (oidc_scope_openid ∷ keep (contains body.scopes) req.scopes) ≡ true
agreed req body =
    let asked =
      all-keep_still (contains body.scopes) (contains req.scopes) req.scopes
        (contains_self-all req.scopes req.scopes (λ x h. h)) in
    let chosen = all-keep (contains body.scopes) req.scopes in
    all-agreed req body (keep (contains body.scopes) req.scopes) asked chosen

no_profile : (scopes : List String) → contains (without_profile scopes) scope_profile ≡ false
no_profile [] = refl
no_profile (s ∷ ss) = ground (arith, no_profile ss)

abbrev pub name_checked : Call → Store → String → Option NameChoice → Bool
name_checked c s user none = true
name_checked c s user (some n) = check_sign_in_name c.writes s user n

abbrev pub has_name : Option NameChoice → Bool
has_name none = false
has_name (some _) = true

abbrev pub names_need_a_name : Given → Bool
names_need_a_name g = not (contains g.granted scope_profile) || has_name g.name

-- Only scopes that were asked for and agreed to, a name only with its scope and only a usable one
-- of the person's own, for each key that was asked for only the entry that the person chose for it,
-- besides the name's own, the keys of these choices and no others, and a bounded number of new
-- entries that the app names.
abbrev pub IsAsked : Call → Store → String → AuthRequest → Decision → Given → Type 0
IsAsked c s user req body g =
    (all (is_agreed req body) g.granted ≡ true)
    × (names_need_a_name g ≡ true)
    × (name_checked c s user g.name ≡ true)
    × (all (is_chosen req body g.name) g.choices ≡ true)
    × (all (has_key g.choices) g.keys ≡ true)
    × (length body.created ≤ length req.link_keys + 1)

name_of-checked :
    {name : Option NameChoice} (c : Call) (s : Store) (user : String) (asked : Bool)
    (picked : Option NameChoice)
    → name_of c s user asked picked ≡ allowed name
    → name_checked c s user name ≡ true
name_of-checked c s user asked none h =
    subst (λ o. name_checked c s user o ≡ true) (same_answer h) refl
name_of-checked c s user false (some n) h =
    subst (λ o. name_checked c s user o ≡ true) (same_answer h) refl
name_of-checked c s user true (some n) h =
    let (usable, rest) = past_guard (not (check_sign_in_name c.writes s user n)) name_invalid _ h in
    subst (λ o. name_checked c s user o ≡ true) (same_answer rest) (ground (arith, usable))

choices-is_chosen :
    (req : AuthRequest) (body : Decision) (name : Option NameChoice)
    → all (is_chosen req body name) (with_name (choose req.link_keys body.links) name) ≡ true
choices-is_chosen req body name =
    let every = contains_self-all req.link_keys req.link_keys (λ x h. h) in
    with_name-is_chosen req body (choose req.link_keys body.links) name
      (choose-is_chosen req body name req.link_keys every)

give-asked :
    (req : AuthRequest) (body : Decision) (name : Option NameChoice)
    → let g = give req body (oidc_scope_openid ∷ keep (contains body.scopes) req.scopes) name in
      (all (is_agreed req body) g.granted ≡ true)
      × (names_need_a_name g ≡ true)
      × (all (is_chosen req body g.name) g.choices ≡ true)
      × (all (has_key g.choices) g.keys ≡ true)
give-asked req body none =
    let granted = oidc_scope_openid ∷ keep (contains body.scopes) req.scopes in
    (
      all-keep_still (λ s. not (s == scope_profile)) (is_agreed req body) granted (agreed req body),
      ground (arith, no_profile granted),
      choices-is_chosen req body none,
      named_keys-has_key req.link_keys (choose req.link_keys body.links),
    )
give-asked req body (some n) = (
  agreed req body,
  ground arith,
  choices-is_chosen req body (some n),
  named_keys-has_key req.link_keys (with_name (choose req.link_keys body.links) (some n)),
)

given-IsAsked :
    {g : Given} (c : Call) (s : Store) (user : String) (req : AuthRequest) (body : Decision)
    → given c s user req body ≡ allowed g
    → IsAsked c s user req body g
unfolding given
given-IsAsked {g} c s user req body h =
    let granted = oidc_scope_openid ∷ keep (contains body.scopes) req.scopes in
    let asked = contains req.scopes scope_profile && contains granted scope_profile in
    let (few, rest) =
      past_guard (ltb (length req.link_keys + 1) (length body.created)) request_invalid _ h in
    let (name, picked, last) =
      allowed_parts (name_of c s user asked body.name)
        (λ name. allowed (give req body granted name)) rest in
    let (scopes, profile, chosen, keys) = give-asked req body name in
    subst (IsAsked c s user req body) (same_answer last) (
      scopes,
      profile,
      name_of-checked c s user asked body.name picked,
      chosen,
      keys,
      ground (arith, few),
    )

-- A sign-in is approved only with a signature that an active identity of the ticket's person made
-- over the ticket, and only while the service is not paused. It gives only scopes that were asked
-- for and agreed to, and a name only with its scope and only a usable one of the person's own. Where
-- an entry is chosen, what the service's link then grants is, for each choice and nothing else, the
-- entry that the person chose for a key that was asked for, or as their name, or the entry that it
-- reads through, which is not sealed; the entry chosen is the person's own, from the workspace of
-- the sign-in. Where none is, the code comes with no grant. The app names at most one new entry for
-- each key and one for the name.
pub approval-IsSigned_and_IsAsked :
    {g : Given} {saved : Saved} (lib : Library) (c : Call) (t : Ticket) (body : Decision)
    (s : Server)
    → approve_ticket lib c t body s ≡ allowed (g, saved)
    → IsSigned c s.store t.user body
      × IsAsked c s.store t.user t.req body g
      × IsShared (place_of t) s.store g.keys g.choices saved
      × (is_paused (s.sign_ins (place_of t)).row ≡ false)
approval-IsSigned_and_IsAsked {g} {saved} lib c t body s h =
    let (signed, gives, taken) = approve_ticket-parts lib c t body s h in
    let (done, world, generation, active) =
      transact-parts lib c (place_of t) t.req body g (s.sign_ins (place_of t)) s.store taken in
    (
      verify_approval-IsSigned c s.store t.user body signed,
      given-IsAsked c s.store t.user t.req body gives,
      transact-IsShared lib c (place_of t) t.req body g (s.sign_ins (place_of t)) s.store taken,
      active,
    )

-- ===== src/Oidc/Given.antt =====
-- What a decision on a sign-in may give: `verifyOIDCApproval` and `oidcConsent` up to its
-- transaction (routes/oidc.go).
use Prim.Native.String
use revoked.Prelude.{
  ℕ, ◌+◌, String, Bool, false, not, ◌&&◌, ◌||◌, Option, none, some, List, [], ◌∷◌, ◌++◌, ◌==◌, ltb,
  length, keep, contains, if◌then◌else◌, Verdict, refused, allowed, ◌>>=◌,
}
use revoked.Links.{status_active}
use revoked.SignIns.{World, oidc_scope_openid}
use revoked.PasskeyVault.{Entry}
use revoked.Oidc.{AuthRequest, Ticket, Code, Access, scope_profile}
use revoked.Oidc.Shares.{
  Place, Store, Writes, NameChoice, sign_in_name_key, name_from_record, find_identity,
  check_sign_in_name,
}

abbrev pub consent_prefix : String
consent_prefix = "revoked-oidc-consent:"

-- Who asks, as the framework authenticated them.
pub record Session : Type 0 where
  pub collection : String
  pub id : String
  pub active_workspace : String

-- The body of a decision.
pub record Decision : Type 0 where
  pub ticket : String
  pub approve : Bool
  pub scopes : List String
  pub links : List (String × String)
  pub identity_id : String
  pub signature : String
  pub name : Option NameChoice
  pub created : List String

-- The refusals of the handlers.
pub data Refusal : Type 0 where
  not_authenticated request_invalid name_invalid link_record_invalid paused : Refusal
  identity_required identity_not_owned identity_revoked signature_invalid : Refusal
  internal_error not_found rate_limited : Refusal
  -- of the token and userinfo endpoints
  unsupported_grant_type invalid_grant invalid_token server_error : Refusal

-- What the handlers keep: the three vaults, the sign-ins by place, and the store.
pub record Server : Type 0 where
  pub tickets : List (Entry Ticket)
  pub codes : List (Entry Code)
  pub tokens : List (Entry Access)
  pub sign_ins : Place → World
  pub store : Store

-- One call: its time, the luck of its writes and fresh keys, and the check of a signature by the
-- cryptographic library, for a key, a message and a signature.
pub record Call : Type 0 where
  pub now : ℕ
  pub fresh_key : String
  pub fresh_token : String
  pub writes : Writes
  pub saves_sign_in : Bool
  pub verify_signature : String → String → String → Bool

abbrev pub is_person : Option Session → Option Session
is_person none = none
is_person (some auth) = if not (auth.collection == "users") then none else some auth

-- `body.Links[key]`
abbrev pub lookup_text : List (String × String) → String → String
lookup_text [] key = ""
lookup_text ((k, v) ∷ rest) key = let later = lookup_text rest key in if k == key then v else later

abbrev pub has_key : List (String × String) → String → Bool
has_key [] key = false
has_key ((k, v) ∷ rest) key = k == key || has_key rest key

abbrev pub signing_key : String → String → String
signing_key certificate public_key = if certificate == "" then public_key else certificate

-- `verifyOIDCApproval`
unfoldable pub verify_approval : Call → Store → String → String → String → String → Option Refusal
verify_approval c s user ticket identity_id signature =
    if identity_id == "" || signature == ""
    then some identity_required
    else elim (find_identity identity_id s) [
      | none ↦ some identity_not_owned
      | some i ↦
          if not (i.user == user)
          then some identity_not_owned
          else if not (i.status == status_active)
          then some identity_revoked
          else if not (
              c.verify_signature (signing_key i.certificate i.public_key)
                (String.◌++◌ consent_prefix ticket) signature)
          then some signature_invalid
          else none
    ]

-- The entries chosen, for the keys that were asked for.
abbrev pub choose : List String → List (String × String) → List (String × String)
choose [] links = []
choose (key ∷ keys) links =
    let rest = choose keys links in
    if not (lookup_text links key == "") then (key, lookup_text links key) ∷ rest else rest

-- What a decision gives, before its transaction.
pub record Given : Type 0 where
  pub granted : List String
  pub choices : List (String × String)
  pub keys : List String
  pub name : Option NameChoice
  pub name_asked : Bool

abbrev pub with_name : List (String × String) → Option NameChoice → List (String × String)
with_name choices none = choices
with_name choices (some n) =
    if not (has_key choices sign_in_name_key) && n.kind == name_from_record
    then choices ++ (sign_in_name_key, n.id) ∷ []
    else choices

abbrev pub without_profile : List String → List String
without_profile granted = keep (λ s. not (s == scope_profile)) granted

abbrev pub named_keys : List String → List (String × String) → List String
named_keys link_keys choices =
    let keys = keep (has_key choices) link_keys in
    if has_key choices sign_in_name_key && not (contains keys sign_in_name_key)
    then keys ++ sign_in_name_key ∷ []
    else keys

-- The scopes, choices and keys of a decision under a name.
abbrev pub give : AuthRequest → Decision → List String → Option NameChoice → Given
give req body granted name =
    let choices = with_name (choose req.link_keys body.links) name in
    record {
      granted = elim name [ none ↦ without_profile granted | some _ ↦ granted ];
      choices = choices;
      keys = named_keys req.link_keys choices;
      name = name;
      name_asked = contains req.scopes scope_profile;
    }

-- The name of a decision that gives one.
abbrev pub name_of :
    Call → Store → String → Bool → Option NameChoice → Verdict Refusal (Option NameChoice)
name_of c s user asked none = allowed none
name_of c s user asked (some n) =
    if not asked
    then allowed none
    else if not (check_sign_in_name c.writes s user n)
    then refused name_invalid
    else allowed (some n)

-- From the approved decision to what it gives.
unfoldable pub given : Call → Store → String → AuthRequest → Decision → Verdict Refusal Given
given c s user req body =
    let granted = oidc_scope_openid ∷ keep (contains body.scopes) req.scopes in
    let asked = contains req.scopes scope_profile && contains granted scope_profile in
    if ltb (length req.link_keys + 1) (length body.created)
    then refused request_invalid
    else name_of c s user asked body.name >>= λ name. allowed (give req body granted name)

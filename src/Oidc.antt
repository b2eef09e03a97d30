-- ===== src/Oidc.antt =====
-- The OpenID Connect provider: its values and constants (routes/oidc.go, util/oidc.go), and the
-- origins and addresses of services (util/connections.go).
mod Accepted
mod Granted
mod Kept
mod Asked
pub mod Claims
pub mod Consent
mod Ended
mod Fixtures
pub mod Given
pub mod Handlers
pub mod Transactions
mod Once
mod Projected
mod Stepping
pub mod Requests
pub mod Runs
pub mod Shares
mod Tests
use Prim.Native.String
use revoked.Prelude.{
  ◌≡◌, ℕ, String, Bool, true, false, not, ◌&&◌, ◌||◌, Option, none, some, List, [], ◌∷◌, ◌++◌, ◌==◌,
  if◌then◌else◌,
}
use revoked.SignIns.{oidc_scope_openid}

abbrev pub scope_profile : String
scope_profile = "profile"

abbrev pub scope_email : String
scope_email = "email"

abbrev pub scope_identity : String
scope_identity = "revoked_identity"

abbrev pub optional_scopes : List String
optional_scopes = scope_profile ∷ scope_email ∷ scope_identity ∷ []

abbrev pub max_link_keys : ℕ
max_link_keys = 20

abbrev pub max_param_length : ℕ
max_param_length = 1024

-- The lifetimes, in seconds.
abbrev pub request_ttl : ℕ
request_ttl = 600

abbrev pub code_ttl : ℕ
code_ttl = 120

abbrev pub access_token_ttl : ℕ
access_token_ttl = 3600

abbrev pub connection_origin_pattern : String
connection_origin_pattern =
    "^(https://[a-z0-9.-]+|http://(localhost|127\\.0\\.0\\.1))(:[0-9]{1,5})?$"

abbrev pub pkce_pattern : String
pkce_pattern = "^[A-Za-z0-9._~-]{43,128}$"

-- `url.URL`, as far as the code reads it
pub record Url : Type 0 where
  pub has_user : Bool
  pub scheme : String
  pub host : String
  pub path : String
  pub raw_query : String
  pub fragment : String

-- Functions of Go's standard library that the provider calls.
pub record Library : Type 0 where
  -- `url.Parse`
  pub parse_url : String → Option Url
  -- `url.Parse`, `Query`, `Set` for each pair, `Encode` and `String`
  pub with_query : String → List (String × String) → Option String
  -- `strings.TrimSpace`, `strings.ToLower` and `strings.Fields`
  pub trim_space : String → String
  pub to_lower : String → String
  pub fields : String → List String
  -- `MatchString` of a compiled pattern
  pub matches : String → String → Bool
  -- SHA-256, in hexadecimal digits and in unpadded URL-safe base64
  pub sha256_hex : String → String
  pub sha256_base64 : String → String
  -- `json.Unmarshal` of the claims parameter: for a member and a claim, the values listed, or
  -- `none` where it is absent or null
  pub claims : String → Option (String → String → Option (List String))

-- `oidcAuthRequest`
pub record AuthRequest : Type 0 where
  pub issuer : String
  pub client_id : String
  pub redirect_uri : String
  pub state : String
  pub nonce : String
  pub challenge : String
  pub scopes : List String
  pub link_keys : List String

-- `oidcTicket`
pub record Ticket : Type 0 where
  pub req : AuthRequest
  pub user : String
  pub workspace : String

-- `services.SignInGrant`
pub record SignInGrant : Type 0 where
  pub id : String
  pub token : String
  pub keys : List String

-- `oidcCode`
pub record Code : Type 0 where
  pub req : AuthRequest
  pub user : String
  pub workspace : String
  pub scopes : List String
  pub auth_time : ℕ
  pub grant : Option SignInGrant
  pub generation : ℕ

-- `oidcAccess`
pub record Access : Type 0 where
  pub issuer : String
  pub user : String
  pub workspace : String
  pub client_id : String
  pub scopes : List String
  pub grant : Option SignInGrant
  pub generation : ℕ

module _ (lib : Library) where
  abbrev origin_of : Url → String
  origin_of u = lib.to_lower (String.◌++◌ u.scheme (String.◌++◌ "://" u.host))

  -- `NormalizeOrigin`
  unfoldable pub normalize_origin : String → Option String
  normalize_origin raw = elim (lib.parse_url (lib.trim_space raw)) [
    | none ↦ none
    | some u ↦
        if u.has_user || u.host == ""
        then none
        else if (not (u.path == "") && not (u.path == "/"))
            || not (u.raw_query == "")
            || not (u.fragment == "")
        then none
        else if not (lib.matches connection_origin_pattern (origin_of u))
        then none
        else some (origin_of u)
  ]

  -- `RedirectWithinOrigin`
  unfoldable pub redirect_within_origin : String → String → Bool
  redirect_within_origin redirect origin = elim (lib.parse_url (lib.trim_space redirect)) [
    | none ↦ false
    | some u ↦
        if u.has_user || u.host == "" || not (u.fragment == "")
        then false
        else origin_of u == origin
  ]

  -- `ValidPKCE`
  abbrev pub valid_pkce : String → Bool
  valid_pkce s = lib.matches pkce_pattern s

  -- `PKCEChallenge`
  abbrev pub pkce_challenge : String → String
  pkce_challenge verifier = lib.sha256_base64 verifier

  -- `HashToken`
  abbrev pub hash_token : String → String
  hash_token token = lib.sha256_hex token

  abbrev only_set : List (String × String) → List (String × String)
  only_set [] = []
  only_set ((k, v) ∷ ps) = let rest = only_set ps in if not (v == "") then (k, v) ∷ rest else rest

  -- `oidcRedirect`
  unfoldable pub oidc_redirect : String → List (String × String) → String
  oidc_redirect redirect_uri params = elim (lib.with_query redirect_uri (only_set params)) [
    | none ↦ redirect_uri
    | some address ↦ address
  ]

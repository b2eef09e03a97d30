-- ===== src/Oidc/Requests.antt =====
-- Authorization requests: `checkOIDCRequest` and `parseLinkClaims` (routes/oidc.go).
use Prim.Native.String
use revoked.Prelude.{
  String, not, ◌&&◌, ◌||◌, Option, none, some, List, [], ◌∷◌, ◌++◌, ◌==◌, ltb, length, keep,
  contains, if◌then◌else◌, Verdict, refused, allowed, ◌>>=◌,
}
use revoked.SignIns.{oidc_scope_openid}
use revoked.Oidc.{
  Library, AuthRequest, optional_scopes, max_link_keys, max_param_length, normalize_origin,
  redirect_within_origin, valid_pkce, oidc_redirect,
}

abbrev pub record_key_pattern : String
record_key_pattern = "^[a-z0-9_-]+$"

abbrev pub claim_links : String
claim_links = "revoked_links"

-- The query of a request: `q.Get`, which is "" for a parameter that is absent.
abbrev pub Query : Type 0
Query = String → String

-- Why a request goes no further.
pub data Unchecked : Type 0 where
  -- `errOIDCClient`
  client_not_identified : Unchecked
  -- the redirect that tells the service
  refusal : String → Unchecked

-- The refusal of a claims parameter, as the service hears it.
abbrev pub invalid_keys : Verdict String (List String) → Verdict (String × String) (List String)
invalid_keys (refused why) = refused ("invalid_request", why)
invalid_keys (allowed link_keys) = allowed link_keys

module _ (lib : Library) where
  -- The keys of one member of the claims, after those so far.
  unfoldable pub add_keys : List String → List String → Verdict String (List String)
  add_keys keys [] = allowed keys
  add_keys keys (k ∷ ks) =
      if not (lib.matches record_key_pattern k)
      then refused "revoked_links names a key that is not a vault key."
      else add_keys (if not (contains keys k) then keys ++ k ∷ [] else keys) ks

  abbrev pub add_member : Option (List String) → List String → Verdict String (List String)
  add_member none keys = allowed keys
  add_member (some values) keys = add_keys keys values

  abbrev pub not_too_many : List String → Verdict String (List String)
  not_too_many keys =
      if ltb max_link_keys (length keys)
      then refused "revoked_links asks for too many keys."
      else allowed keys

  -- The keys of both members that are read.
  abbrev pub keys_of : (String → String → Option (List String)) → Verdict String (List String)
  keys_of claim =
      add_member (claim "userinfo" claim_links) []
      >>= add_member (claim "id_token" claim_links)
      >>= not_too_many

  abbrev pub decoded_keys : String → Verdict String (List String)
  decoded_keys raw = elim (lib.claims raw) as (λ _. Verdict String (List String)) [
    | none ↦ refused "The claims parameter is not valid JSON."
    | some claim ↦ keys_of claim
  ]

  -- `parseLinkClaims`
  unfoldable pub parse_link_claims : String → Verdict String (List String)
  parse_link_claims raw = if raw == "" then allowed [] else decoded_keys raw

  -- The state that answers carry: one that is too long is dropped.
  abbrev pub echoed : Query → String
  echoed q = if ltb max_param_length (String.len (q "state")) then "" else q "state"

  -- `back`
  abbrev pub back : String → Query → String → String → Unchecked
  back issuer q code description = refusal (
      oidc_redirect lib (q "redirect_uri") (
        ("error", code)
        ∷ ("error_description", description)
        ∷ ("state", echoed q)
        ∷ ("iss", issuer)
        ∷ []))

  abbrev pub check_client : Query → Verdict Unchecked String
  check_client q = elim (normalize_origin lib (q "client_id")) as (λ _. Verdict Unchecked String) [
    | none ↦ refused client_not_identified
    | some client_id ↦
        if not (redirect_within_origin lib (q "redirect_uri") client_id)
        then refused client_not_identified
        else allowed client_id
  ]

  -- The checks after the client's, in their order, with the code and description of each refusal.
  abbrev pub check_params : Query → Verdict (String × String) (List String)
  check_params q =
      if not (q "response_type" == "code")
      then refused ("unsupported_response_type", "Only the authorization code flow is supported.")
      else if not (contains (lib.fields (q "scope")) oidc_scope_openid)
      then refused ("invalid_scope", "The openid scope is required.")
      else if not (q "request" == "")
      then refused ("request_not_supported", "Request objects are not supported.")
      else if not (q "request_uri" == "")
      then refused ("request_uri_not_supported", "Request objects are not supported.")
      else if not (q "response_mode" == "") && not (q "response_mode" == "query")
      then refused ("invalid_request", "Only the query response mode is supported.")
      else if not (valid_pkce lib (q "code_challenge")) || not (q "code_challenge_method" == "S256")
      then refused ("invalid_request", "PKCE with the S256 method is required.")
      else if ltb max_param_length (String.len (q "state"))
          || ltb max_param_length (String.len (q "nonce"))
      then refused ("invalid_request", "state or nonce is too long.")
      else if contains (lib.fields (q "prompt")) "none"
      then refused ("login_required", "Signing in needs the person's approval in the Revoked app.")
      else invalid_keys (parse_link_claims (q "claims"))

  -- The request that is made of parameters that passed.
  abbrev pub request_of : String → Query → String → List String → AuthRequest
  request_of issuer q client_id link_keys = record {
    issuer = issuer;
    client_id = client_id;
    redirect_uri = q "redirect_uri";
    state = echoed q;
    nonce = q "nonce";
    challenge = q "code_challenge";
    scopes = keep (contains (lib.fields (q "scope"))) optional_scopes;
    link_keys = link_keys;
  }

  -- Once the client is known, a refusal goes back to it.
  abbrev pub answered :
      String
      → Query
      → String
      → Verdict (String × String) (List String)
      → Verdict Unchecked AuthRequest
  answered issuer q client_id (refused (code, description)) =
      refused (back issuer q code description)
  answered issuer q client_id (allowed link_keys) =
      allowed (request_of issuer q client_id link_keys)

  -- `checkOIDCRequest`
  unfoldable pub check_request : String → Query → Verdict Unchecked AuthRequest
  check_request issuer q =
      check_client q >>= λ client_id. answered issuer q client_id (check_params q)

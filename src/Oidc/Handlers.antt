-- ===== src/Oidc/Handlers.antt =====
-- The other handlers of the provider, and what runs of them do: `oidcAppRequest`, `oidcToken`,
-- `oidcUserinfo`, `ownedSignIn` and the routes that pause, resume and disconnect (routes/oidc.go).
use revoked.Prelude.{
  ℕ, String, Bool, not, ◌&&◌, Option, none, some, List, [], ◌∷◌, ◌==◌, contains, if◌then◌else◌,
  Verdict, refused, allowed,
}
use revoked.SignIns.{sign_in_allows}
use revoked.PasskeyVault.{put, take, peek, passkey_vault_cap}
use revoked.Oidc.{
  Library, AuthRequest, Ticket, SignInGrant, Code, Access, request_ttl, access_token_ttl,
  hash_token, valid_pkce, pkce_challenge,
}
use revoked.Oidc.Requests.{Query, client_not_identified, refusal, check_request}
use revoked.Oidc.Shares.{Place}
use revoked.Oidc.Given.{
  Session, Refusal, Server, Call, is_person, not_authenticated, request_invalid,
  unsupported_grant_type, invalid_grant, invalid_token, server_error, rate_limited,
}
use revoked.Oidc.Transactions.{is_paused}
use revoked.Oidc.Consent.{declined}
use revoked.Oidc.Claims.{User, Claims, Mac, oidc_claims}

abbrev pub oidc_forwarded : List String
oidc_forwarded =
    "client_id" ∷ "redirect_uri" ∷ "response_type" ∷ "scope" ∷ "state" ∷ "nonce" ∷ "code_challenge"
    ∷ "code_challenge_method" ∷ "claims" ∷ "prompt" ∷ "revoked_return" ∷ []

-- The parameters that are passed on.
abbrev pub forwarded : Query → Query
forwarded params k = if contains oidc_forwarded k then params k else ""

-- What the app hears of a request that it opens.
pub data Opened : Type 0 where
  redirected : String → Opened
  service_paused : String → Opened
  with_ticket : String → Opened

-- What the service hears of a code that it redeems.
pub record Tokens : Type 0 where
  pub access_token : String
  pub scope : List String
  pub issuer : String
  pub audience : String
  pub nonce : String
  pub issued_at : ℕ
  pub auth_time : ℕ
  pub claims : Claims

-- What the handlers get from outside: the people, the issuer's keys where they are available, and
-- whether the rate limits let the call pass.
pub record Outside : Type 0 where
  pub find_user : String → Option User
  pub issuer_keys : Option Mac
  pub signs : Bool
  pub within_rate : Bool

abbrev pub place_of_code : Code → Place
place_of_code c = record { user = c.user; workspace = c.workspace; client_id = c.req.client_id }

abbrev pub place_of_access : Access → Place
place_of_access a = record { user = a.user; workspace = a.workspace; client_id = a.client_id }

abbrev pub access_of : Code → Access
access_of c = record {
  issuer = c.req.issuer;
  user = c.user;
  workspace = c.workspace;
  client_id = c.req.client_id;
  scopes = c.scopes;
  grant = c.grant;
  generation = c.generation;
}

-- `services.SignInAllows`
abbrev pub allows : Server → Place → ℕ → Bool
allows s p generation = sign_in_allows (s.sign_ins p).row generation

module _ (lib : Library) where
  abbrev open_checked : Call → Session → AuthRequest → Server → Verdict Refusal Opened × Server
  open_checked c auth req s =
      let p : Place = record {
        user = auth.id;
        workspace = auth.active_workspace;
        client_id = req.client_id;
      } in
      let t : Ticket = record { req = req; user = auth.id; workspace = auth.active_workspace } in
      if is_paused (s.sign_ins p).row then (allowed (service_paused (declined lib req)), s) else (
        allowed (with_ticket c.fresh_key),
        record s {
          tickets =
              put (hash_token lib) passkey_vault_cap c.fresh_key t request_ttl c.now s.tickets;
        },
      )

  -- `oidcAppRequest`, for a body that could be read
  unfoldable pub app_request :
      Call → Outside → Option Session → String → Query → Server → Verdict Refusal Opened × Server
  unfolding check_request put
  app_request c out asking issuer params s =
      elim (is_person asking) as (λ _. Verdict Refusal Opened × Server) [
        | none ↦ (refused not_authenticated, s)
        | some auth ↦
            if not out.within_rate
            then (refused rate_limited, s)
            else elim (check_request lib issuer (forwarded params))
                as (λ _. Verdict Refusal Opened × Server) [
                  | refused client_not_identified ↦ (refused request_invalid, s)
                  | refused (refusal address) ↦ (allowed (redirected address), s)
                  | allowed req ↦ open_checked c auth req s
                ]
      ]

  -- The form matches the request that the code was given for.
  abbrev pub matches_code : Query → Code → Bool
  matches_code form c =
      form "client_id" == c.req.client_id
      && form "redirect_uri" == c.req.redirect_uri
      && valid_pkce lib (form "code_verifier")
      && pkce_challenge lib (form "code_verifier") == c.req.challenge

  abbrev pub tokens_of : Call → Server → User → Mac → Code → Tokens
  tokens_of call s u keys c = record {
    access_token = call.fresh_key;
    scope = c.scopes;
    issuer = c.req.issuer;
    audience = c.req.client_id;
    nonce = c.req.nonce;
    issued_at = call.now;
    auth_time = c.auth_time;
    claims =
        oidc_claims keys call.writes s.store (s.sign_ins (place_of_code c)) u (place_of_code c)
          c.scopes;
  }

  -- The checks of a code that was taken.
  unfoldable pub redeem_code : Call → Outside → Query → Code → Server → Verdict Refusal Tokens
  unfolding sign_in_allows oidc_claims
  redeem_code call out form c s =
      if not (matches_code form c)
      then refused invalid_grant
      else elim (out.find_user c.user) as (λ _. Verdict Refusal Tokens) [
        | none ↦ refused invalid_grant
        | some u ↦
            if not (allows s (place_of_code c) c.generation)
            then refused invalid_grant
            else elim out.issuer_keys as (λ _. Verdict Refusal Tokens) [
              | none ↦ refused server_error
              | some keys ↦
                  if not out.signs
                  then refused server_error
                  else allowed (tokens_of call s u keys c)
            ]
      ]

  abbrev pub keep_access : Call → Code → Server → Server
  keep_access call c s = record s {
    tokens =
        put (hash_token lib) passkey_vault_cap call.fresh_key (access_of c) access_token_ttl
          call.now s.tokens;
  }

  -- What a code that was checked answers and leaves.
  abbrev pub after_redeem :
      Call → Code → Server → Verdict Refusal Tokens → Verdict Refusal Tokens × Server
  after_redeem call c s (refused why) = (refused why, s)
  after_redeem call c s (allowed tokens) = (allowed tokens, keep_access call c s)

  abbrev pub redeem_taken :
      Call → Outside → Query → Option Code → Server → Verdict Refusal Tokens × Server
  redeem_taken call out form none s = (refused invalid_grant, s)
  redeem_taken call out form (some c) s = after_redeem call c s (redeem_code call out form c s)

  -- `oidcToken`, for a form that could be read
  unfoldable pub token : Call → Outside → Query → Server → Verdict Refusal Tokens × Server
  unfolding take redeem_code put
  token call out form s =
      if not out.within_rate
      then (refused rate_limited, s)
      else if not (form "grant_type" == "authorization_code")
      then (refused unsupported_grant_type, s)
      else let (code, left) = take (hash_token lib) (form "code") call.now s.codes in
        redeem_taken call out form code (record s { codes = left })

  -- `oidcUserinfo`: the claims, and the grant
  unfoldable pub userinfo :
      Call → Outside → String → Server → Verdict Refusal (Claims × Option SignInGrant)
  unfolding peek sign_in_allows oidc_claims
  userinfo call out key s =
      if not out.within_rate
      then refused rate_limited
      else elim (peek (hash_token lib) key call.now s.tokens)
          as (λ _. Verdict Refusal (Claims × Option SignInGrant)) [
            | none ↦ refused invalid_token
            | some a ↦
                if not (allows s (place_of_access a) a.generation)
                then refused invalid_token
                else elim (out.find_user a.user)
                    as (λ _. Verdict Refusal (Claims × Option SignInGrant)) [
                      | none ↦ refused invalid_token
                      | some u ↦
                          elim out.issuer_keys
                            as (λ _. Verdict Refusal (Claims × Option SignInGrant)) [
                              | none ↦ refused server_error
                              | some keys ↦ allowed (
                                oidc_claims keys call.writes s.store
                                    (s.sign_ins (place_of_access a)) u (place_of_access a) a.scopes,
                                a.grant,
                              )
                            ]
                    ]
          ]

-- ===== src/Oidc/Accepted.antt =====
-- What an accepted request and a refusal guarantee (routes/oidc.go).
use Prim.Native.String
use revoked.Prelude.{
  ◌≡◌, refl, inl, inr, ◌≤◌, String, Bool, true, false, not, ◌&&◌, ◌||◌, Option, none, some, List,
  [], ◌∷◌, ◌++◌, ◌==◌, ltb, arith, all, all_add, all-keep, all-keep_still, length, contains,
  distinct, distinct-add, if◌then◌else◌, Verdict, refused, allowed, ◌>>=◌, allowed_parts,
  past_guard, past_lookup, same_answer, same_refusal, sym, subst, ap, eq_iff, Verdict-cases,
  Bool-cases, Option-cases,
}
use revoked.SignIns.{oidc_scope_openid}
use revoked.Oidc.{
  Library, AuthRequest, optional_scopes, max_link_keys, max_param_length, normalize_origin,
  redirect_within_origin, valid_pkce,
}
use revoked.Oidc.Requests.{
  Query, Unchecked, client_not_identified, refusal, record_key_pattern, claim_links, add_keys,
  add_member, keys_of, decoded_keys, not_too_many, parse_link_claims, back, invalid_keys,
  request_of, answered, check_client, check_params, check_request,
}

module _ (lib : Library) where
  -- Vault keys, none of them twice.
  abbrev pub are_keys : List String → Bool
  are_keys keys = all (lib.matches record_key_pattern) keys && distinct keys

  are_keys-add :
      (keys : List String) (k : String)
      → are_keys keys ≡ true
      → lib.matches record_key_pattern k ≡ true
      → contains keys k ≡ false
      → are_keys (keys ++ k ∷ []) ≡ true
  are_keys-add keys k h m new =
      ground (arith, distinct-add keys k, all_add (lib.matches record_key_pattern) keys k)

  are_keys-next :
      (keys : List String) (k : String)
      → are_keys keys ≡ true
      → lib.matches record_key_pattern k ≡ true
      → are_keys (if not (contains keys k) then keys ++ k ∷ [] else keys) ≡ true
  are_keys-next keys k h m = elim (Bool-cases (contains keys k)) [
    | inl there ↦ rw there h
    | inr new ↦ rw new (are_keys-add keys k h m new)
  ]

  add_keys-keys :
      (keys values : List String) {last : List String}
      → are_keys keys ≡ true
      → add_keys lib keys values ≡ allowed last
      → are_keys last ≡ true
  unfolding add_keys
  add_keys-keys keys [] h done = subst (λ l. are_keys l ≡ true) (same_answer done) h
  add_keys-keys keys (k ∷ ks) h done =
      let (is_key, rest) =
        past_guard (not (lib.matches record_key_pattern k))
          "revoked_links names a key that is not a vault key." _ done in
      let next = if not (contains keys k) then keys ++ k ∷ [] else keys in
      add_keys-keys next ks (are_keys-next keys k h (ground (arith, is_key))) rest

  add_member-keys :
      (values : Option (List String)) (keys : List String) {last : List String}
      → are_keys keys ≡ true
      → add_member lib values keys ≡ allowed last
      → are_keys last ≡ true
  unfolding add_keys
  add_member-keys none keys h done = subst (λ l. are_keys l ≡ true) (same_answer done) h
  add_member-keys (some values) keys h done = add_keys-keys keys values h done

  not_too_many-same :
      (keys : List String) {last : List String}
      → not_too_many lib keys ≡ allowed last
      → (last ≡ keys) × (length last ≤ max_link_keys)
  not_too_many-same keys done = ground (arith, done)

  keys_of-keys :
      (claim : String → String → Option (List String)) {keys : List String}
      → keys_of lib claim ≡ allowed keys
      → (are_keys keys ≡ true) × (length keys ≤ max_link_keys)
  unfolding add_keys
  keys_of-keys claim done =
      let (both, chain, few) =
        allowed_parts
          (add_member lib (claim "userinfo" claim_links) []
            >>= add_member lib (claim "id_token" claim_links))
          (not_too_many lib) done in
      let (one, at_userinfo, at_id_token) =
        allowed_parts (add_member lib (claim "userinfo" claim_links) [])
          (add_member lib (claim "id_token" claim_links)) chain in
      let (same, bounded) = not_too_many-same both few in
      let kept =
        add_member-keys (claim "id_token" claim_links) one
          (add_member-keys (claim "userinfo" claim_links) [] refl at_userinfo) at_id_token in
      (rw same kept, bounded)

  parse_link_claims-keys :
      {keys : List String} (raw : String)
      → parse_link_claims lib raw ≡ allowed keys
      → (are_keys keys ≡ true) × (length keys ≤ max_link_keys)
  unfolding parse_link_claims
  parse_link_claims-keys {keys} raw done = elim (Bool-cases (raw == "")) [
    | inl empty ↦
        let same = same_answer (
          subst (λ b. (if b then allowed [] else decoded_keys lib raw) ≡ allowed keys) empty
            done) in
        subst (λ l. (are_keys l ≡ true) × (length l ≤ max_link_keys)) same (refl, omega arith)
    | inr given ↦
        let decoded =
          subst (λ b. (if b then allowed [] else decoded_keys lib raw) ≡ allowed keys) given done in
        let (claim, read, chain) =
          past_lookup (lib.claims raw) "The claims parameter is not valid JSON." (keys_of lib)
            decoded in
        keys_of-keys claim chain
  ]

  invalid_keys-allowed :
      {keys : List String} (v : Verdict String (List String))
      → invalid_keys v ≡ allowed keys
      → v ≡ allowed keys
  invalid_keys-allowed (refused why) done = cc
  invalid_keys-allowed (allowed found) done = ap allowed (same_answer done)

  -- What the checks of the parameters leave.
  abbrev pub Passed : Query → List String → Type 0
  Passed q keys =
      (q "response_type" ≡ "code")
      × (contains (lib.fields (q "scope")) oidc_scope_openid ≡ true)
      × (q "request" ≡ "")
      × (q "request_uri" ≡ "")
      × ((q "response_mode" == "" || q "response_mode" == "query") ≡ true)
      × (valid_pkce lib (q "code_challenge") ≡ true)
      × (q "code_challenge_method" ≡ "S256")
      × (String.len (q "state") ≤ max_param_length)
      × (String.len (q "nonce") ≤ max_param_length)
      × (contains (lib.fields (q "prompt")) "none" ≡ false)
      × (are_keys keys ≡ true)
      × (length keys ≤ max_link_keys)

  check_params-Passed :
      {keys : List String} (q : Query) → check_params lib q ≡ allowed keys → Passed q keys
  check_params-Passed {keys} q done =
      let (is_code, done) =
        past_guard (not (q "response_type" == "code"))
          ("unsupported_response_type", "Only the authorization code flow is supported.") _ done in
      let (openid, done) =
        past_guard (not (contains (lib.fields (q "scope")) oidc_scope_openid))
          ("invalid_scope", "The openid scope is required.") _ done in
      let (no_object, done) =
        past_guard (not (q "request" == ""))
          ("request_not_supported", "Request objects are not supported.") _ done in
      let (no_uri, done) =
        past_guard (not (q "request_uri" == ""))
          ("request_uri_not_supported", "Request objects are not supported.") _ done in
      let (mode, done) =
        past_guard (not (q "response_mode" == "") && not (q "response_mode" == "query"))
          ("invalid_request", "Only the query response mode is supported.") _ done in
      let (pkce, done) =
        past_guard
          (not (valid_pkce lib (q "code_challenge")) || not (q "code_challenge_method" == "S256"))
          ("invalid_request", "PKCE with the S256 method is required.") _ done in
      let (short, done) =
        past_guard
          (ltb max_param_length (String.len (q "state"))
            || ltb max_param_length (String.len (q "nonce")))
          ("invalid_request", "state or nonce is too long.") _ done in
      let (asks, done) =
        past_guard (contains (lib.fields (q "prompt")) "none")
          ("login_required", "Signing in needs the person's approval in the Revoked app.") _ done in
      let (keys_fine, few) =
        parse_link_claims-keys (q "claims")
          (invalid_keys-allowed (parse_link_claims lib (q "claims")) done) in
      (
        ground (arith, is_code, eq_iff (q "response_type") "code"),
        ground (arith, openid),
        ground (arith, no_object, eq_iff (q "request") ""),
        ground (arith, no_uri, eq_iff (q "request_uri") ""),
        ground (arith, mode),
        ground (arith, pkce),
        ground (arith, pkce, eq_iff (q "code_challenge_method") "S256"),
        ground (arith, short),
        ground (arith, short),
        asks,
        keys_fine,
        few,
      )

  check_client-identified :
      {client_id : String} (q : Query)
      → check_client lib q ≡ allowed client_id
      → (normalize_origin lib (q "client_id") ≡ some client_id)
        × (redirect_within_origin lib (q "redirect_uri") client_id ≡ true)
  check_client-identified {client_id} q done =
      let (found, at, rest) =
        past_lookup (normalize_origin lib (q "client_id")) client_not_identified _ done in
      let (within, last) =
        past_guard (not (redirect_within_origin lib (q "redirect_uri") found)) client_not_identified
          _ rest in
      let same = same_answer last in
      subst
        (λ c.
          (normalize_origin lib (q "client_id") ≡ some c)
          × (redirect_within_origin lib (q "redirect_uri") c ≡ true))
        same (at, ground (arith, within))

  answered-allowed :
      {req : AuthRequest} (issuer : String) (q : Query) (client_id : String)
      (v : Verdict (String × String) (List String))
      → answered lib issuer q client_id v ≡ allowed req
      → (keys : List String) × (v ≡ allowed keys) × (request_of lib issuer q client_id keys ≡ req)
  answered-allowed issuer q client_id (refused (code, description)) done = cc
  answered-allowed issuer q client_id (allowed keys) done = (keys, refl, same_answer done)

  answered-refused :
      {address : String} (issuer : String) (q : Query) (client_id : String)
      (v : Verdict (String × String) (List String))
      → answered lib issuer q client_id v ≡ refused (refusal address)
      → (code : String) × (description : String) × (refusal address
          ≡ back lib issuer q code description)
  answered-refused issuer q client_id (refused (code, description)) done =
      (code, description, sym (same_refusal done))
  answered-refused issuer q client_id (allowed keys) done = cc

  check_client-why :
      {why : Unchecked} (q : Query) → check_client lib q ≡ refused why → why ≡ client_not_identified
  check_client-why q done = elim (Option-cases (normalize_origin lib (q "client_id"))) [
    | inl bad ↦ ground (arith, bad, done)
    | inr (client_id, good) ↦ ground (arith, good, done)
  ]

  -- A request is only ever refused by a redirect when the service's origin is well-formed and the
  -- redirect address lies on it; the redirect then goes to that address, with the state echoed.
  pub refusal_is_vouched :
      {address : String} (issuer : String) (q : Query)
      → check_request lib issuer q ≡ refused (refusal address)
      → (client_id : String) × (code : String) × (description : String) × (normalize_origin lib
            (q "client_id")
          ≡ some client_id)
        × (redirect_within_origin lib (q "redirect_uri") client_id ≡ true)
        × (refusal address ≡ back lib issuer q code description)
  unfolding check_request
  refusal_is_vouched {address} issuer q done = elim (Verdict-cases (check_client lib q)) [
    | inl (why, unknown) ↦
        let same = same_refusal (
          subst
            (λ v.
              (v >>= λ c. answered lib issuer q c (check_params lib q)) ≡ refused (refusal address))
            unknown done) in
        let never = check_client-why q unknown in cc
    | inr (client_id, known) ↦
        let (named, within) = check_client-identified q known in
        let (code, description, at) = answered-refused issuer q client_id (check_params lib q) (
          subst
            (λ v.
              (v >>= λ c. answered lib issuer q c (check_params lib q)) ≡ refused (refusal address))
            known done) in
        (client_id, code, description, named, within, at)
  ]

  abbrev pub IsSound : Query → AuthRequest → Type 0
  IsSound q req =
      (normalize_origin lib (q "client_id") ≡ some req.client_id)
      × (redirect_within_origin lib req.redirect_uri req.client_id ≡ true)
      × (valid_pkce lib req.challenge ≡ true)
      × (req.state ≡ q "state")
      × (all (contains (lib.fields (q "scope"))) req.scopes ≡ true)
      × (all (contains optional_scopes) req.scopes ≡ true)
      × Passed q req.link_keys

  -- A request that is accepted names a service by a well-formed origin and an address on it, asks
  -- for the authorization code flow with `openid` and a well-formed PKCE challenge of the method
  -- S256, never silently, comes with no request object and with no response mode but the query, asks
  -- for no optional scope that it did not list or that is not offered, and asks for at most 20 vault
  -- keys, well-formed and none of them twice; state and nonce are within their limit.
  pub accepted-IsSound :
      {req : AuthRequest} (issuer : String) (q : Query)
      → check_request lib issuer q ≡ allowed req
      → IsSound q req
  unfolding check_request
  accepted-IsSound {req} issuer q done =
      let (client_id, known, rest) =
        allowed_parts (check_client lib q) (λ c. answered lib issuer q c (check_params lib q))
          done in
      let (named, within) = check_client-identified q known in
      let (keys, passed, same) = answered-allowed issuer q client_id (check_params lib q) rest in
      let fine = check_params-Passed q passed in
      let (_, _, _, _, _, pkce, _, state_fits, _, _, _, _) = fine in
      let asked = contains (lib.fields (q "scope")) in
      subst (IsSound q) same (
        named,
        within,
        pkce,
        ground (arith, state_fits),
        all-keep asked optional_scopes,
        all-keep_still asked (contains optional_scopes) optional_scopes refl,
        fine,
      )

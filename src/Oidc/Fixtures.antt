-- ===== src/Oidc/Fixtures.antt =====
-- A person with one identity who signs in at a service, under simple functions for the libraries.
use revoked.Prelude.{ℕ, String, true, false, not, Option, none, some, [], ◌∷◌, ◌==◌, if◌then◌else◌}
use revoked.Links.{status_active}
use revoked.SignIns.{Database}
use revoked.Oidc.{Library, AuthRequest, Ticket, Code, Access}
use revoked.Oidc.Requests.{Query}
use revoked.Oidc.Shares.{Store, Writes, Place}
use revoked.Oidc.Given.{Session, Decision, Call}
use revoked.Oidc.Handlers.{Outside}
use revoked.Oidc.Runs.{Request, open_request, decide, redeem}

abbrev pub service : String
service = "https://shop"

abbrev pub callback : String
callback = "https://shop/back"

abbrev pub lib : Library
lib = record {
  parse_url = λ s.
      if s == service
      then some (record {
        has_user = false;
        scheme = "https";
        host = "shop";
        path = "";
        raw_query = "";
        fragment = "";
      })
      else if s == callback
      then some (record {
        has_user = false;
        scheme = "https";
        host = "shop";
        path = "/back";
        raw_query = "";
        fragment = "";
      })
      else none;
  with_query = λ address params. some address;
  trim_space = λ s. s;
  to_lower = λ s. s;
  fields = λ s. if s == "openid email" then "openid" ∷ "email" ∷ [] else [];
  matches = λ pattern s. not (s == "");
  sha256_hex = λ s. s;
  sha256_base64 = λ s. s;
  claims = λ s. none;
}

abbrev pub query : Query
query k =
    if k == "client_id"
    then service
    else if k == "redirect_uri"
    then callback
    else if k == "response_type"
    then "code"
    else if k == "scope"
    then "openid email"
    else if k == "code_challenge"
    then "secret"
    else if k == "code_challenge_method"
    then "S256"
    else ""

abbrev pub silent : Query
silent k = if k == "response_type" then "token" else query k

abbrev pub request : AuthRequest
request = record {
  issuer = "https://id";
  client_id = service;
  redirect_uri = callback;
  state = "";
  nonce = "";
  challenge = "secret";
  scopes = "email" ∷ [];
  link_keys = [];
}

abbrev pub store : Store
store = record {
  items = [];
  shared = [];
  sections = [];
  identities =
      record {
        id = "i1";
        user = "ann";
        status = status_active;
        name = "Ann";
        certificate = "";
        public_key = "pk";
        is_primary = true;
        fingerprint = "f";
      }
      ∷ [];
}

abbrev pub writes : Writes
writes = record {
  makes_token = true;
  new_link = "l1";
  new_item = λ k. k;
  saves_link = true;
  saves_item = λ id. true;
  saves_section = true;
  hostname = λ h. none;
  key_form = λ h. h;
  take_runes = λ n s. s;
  trim_space = λ s. s;
  rune_count = λ s. 1;
}

abbrev pub call : ℕ → String → Call
call now key = record {
  now = now;
  fresh_key = key;
  fresh_token = "t";
  writes = writes;
  saves_sign_in = true;
  verify_signature = λ key message signature. key == "pk";
}

abbrev pub outside : Outside
outside = record {
  find_user = λ id. some (record { id = id; email = "ann@home"; verified = true });
  issuer_keys = some (record { digest = λ parts. "sub"; itoa = λ n. "1" });
  signs = true;
  within_rate = true;
}

abbrev pub ann : Option Session
ann = some (record { collection = "users"; id = "ann"; active_workspace = "w" })

abbrev pub decision : Decision
decision = record {
  ticket = "ticket";
  approve = true;
  scopes = "email" ∷ [];
  links = [];
  identity_id = "i1";
  signature = "sig";
  name = none;
  created = [];
}

abbrev pub form : Query
form k =
    if k == "grant_type"
    then "authorization_code"
    else if k == "code"
    then "code"
    else if k == "client_id"
    then service
    else if k == "redirect_uri"
    then callback
    else if k == "code_verifier"
    then "secret"
    else ""

abbrev pub opens : Request
opens = open_request (call 1 "ticket") outside ann "https://id" query

abbrev pub approves : Request
approves = decide (call 2 "code") ann decision

abbrev pub redeems : Request
redeems = redeem (call 3 "access") outside form

abbrev pub place : Place
place = record { user = "ann"; workspace = "w"; client_id = service }

abbrev pub the_code : Code
the_code = record {
  req = request;
  user = "ann";
  workspace = "w";
  scopes = "openid" ∷ "email" ∷ [];
  auth_time = 2;
  grant = none;
  generation = 0;
}

abbrev pub the_access : Access
the_access = record {
  issuer = "https://id";
  user = "ann";
  workspace = "w";
  client_id = service;
  scopes = "openid" ∷ "email" ∷ [];
  grant = none;
  generation = 0;
}

abbrev pub up : Database
up = record { saves_row = true; saves_link = true }

abbrev pub ticket : Ticket
ticket = record { req = request; user = "ann"; workspace = "w" }

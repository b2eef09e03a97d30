-- ===== src/Oidc/Tests.antt =====
-- Runs of the OpenID Connect provider.
use Prim.Native.String
use revoked.Prelude.{◌≡◌, refl, String, true, false, none, some, [], ◌∷◌, Verdict, refused, allowed}
use revoked.Links.{status_active}
use revoked.Oidc.{Ticket, normalize_origin, redirect_within_origin, oidc_redirect, hash_token}
use revoked.Oidc.Requests.{refusal, check_request, parse_link_claims}
use revoked.Oidc.Accepted.{IsSound, accepted-IsSound, refusal_is_vouched}
use revoked.SignIns.{World, disconnect_sign_in, record_sign_in, learn, sign_in_allows}
use revoked.PasskeyVault.{find_oldest, make_room, put, peek, take}
use revoked.Oidc.Requests.{back}
use revoked.Oidc.Shares.{
  Item, Shared, Store, drop_name_grant, save_sign_in_grant, save_sign_in_alias, collect,
  check_sign_in_name,
}
use revoked.Oidc.Given.{
  Server, Given, Decision, Refusal, verify_approval, given, invalid_grant, invalid_token,
}
use revoked.Oidc.Transactions.{file_aliases, file_alias, share, transact, is_paused, Saved}
use revoked.Oidc.Consent.{approve_ticket, decide_ticket, consent}
use revoked.Oidc.Claims.{pairwise_subject, sign_in_name_of, primary_identity, oidc_claims}
use revoked.Oidc.Handlers.{app_request, redeem_code, token, userinfo}
use revoked.Oidc.Runs.{change_sign_in, handle, serve, started}
use revoked.Oidc.Ended.{disconnected_token_reads_nothing, disconnected_code_gives_nothing}
use revoked.Oidc.Once.{code_is_spent_once}
use revoked.Oidc.Granted.{IsShared}
use revoked.Oidc.Asked.{IsSigned, IsAsked, approval-IsSigned_and_IsAsked}
use revoked.Oidc.Fixtures.{
  callback, lib, query, silent, request, store, call, outside, ann, decision, form, opens, approves,
  redeems, place, the_code, the_access, up, ticket,
}

-- What the runs unfold.
ops : Unit {0}
unfolding check_request normalize_origin redirect_within_origin parse_link_claims oidc_redirect put
    make_room find_oldest peek take app_request redeem_code token handle serve change_sign_in
    approve_ticket decide_ticket consent verify_approval given share transact check_sign_in_name
    drop_name_grant save_sign_in_grant save_sign_in_alias collect file_aliases file_alias
    record_sign_in learn disconnect_sign_in sign_in_allows oidc_claims pairwise_subject
    sign_in_name_of primary_identity
ops = tt

accepts : check_request lib "https://id" query ≡ allowed request
unfolding check_request normalize_origin redirect_within_origin parse_link_claims
accepts = refl

accepted-IsSound_example : IsSound lib query request
accepted-IsSound_example = accepted-IsSound lib "https://id" query accepts

refuses : check_request lib "https://id" silent ≡ refused (refusal callback)
unfolding check_request normalize_origin redirect_within_origin parse_link_claims oidc_redirect
refuses = refl

refusal_is_vouched_example :
    (client_id : String) × (code : String) × (description : String) × (normalize_origin lib
        (silent "client_id")
      ≡ some client_id)
    × (redirect_within_origin lib (silent "redirect_uri") client_id ≡ true)
    × (refusal callback ≡ back lib "https://id" silent code description)
refusal_is_vouched_example = refusal_is_vouched lib "https://id" silent refuses

abbrev signed_up : Server
signed_up = serve lib (opens ∷ approves ∷ []) (started store)

abbrev reading : Server
reading = serve lib (opens ∷ approves ∷ redeems ∷ []) (started store)

holds_code : peek (hash_token lib) "code" 3 signed_up.codes ≡ some the_code
unfolding ops
holds_code = refl

holds_access : peek (hash_token lib) "access" 4 reading.tokens ≡ some the_access
unfolding ops
holds_access = refl

abbrev cut : Server → Verdict Refusal String × Server
cut s = change_sign_in ann place (disconnect_sign_in up 9 false) s

cut_code : cut signed_up ≡ (allowed "disconnected", (cut signed_up).1)
unfolding ops
cut_code = refl

cut_access : cut reading ≡ (allowed "disconnected", (cut reading).1)
unfolding ops
cut_access = refl

still_there :
    peek (hash_token lib) "access" 10 (serve lib (opens ∷ []) (cut reading).1).tokens
    ≡ some the_access
unfolding ops
still_there = refl

disconnected_token_reads_nothing_example :
    userinfo lib (call 10 "k") outside "access" (serve lib (opens ∷ []) (cut reading).1)
    ≡ refused invalid_token
disconnected_token_reads_nothing_example =
    disconnected_token_reads_nothing lib (opens ∷ approves ∷ redeems ∷ []) (opens ∷ []) store ann up
      9 false the_access "access" "access" 4 (call 10 "k") outside holds_access cut_access
      still_there refl

disconnected_code_gives_nothing_example :
    redeem_code lib (call 10 "k") outside form the_code (serve lib (opens ∷ []) (cut signed_up).1)
    ≡ refused invalid_grant
disconnected_code_gives_nothing_example =
    disconnected_code_gives_nothing lib (opens ∷ approves ∷ []) (opens ∷ []) store ann up 9 false
      the_code "code" 3 (call 10 "k") outside form holds_code cut_code

code_is_spent_once_example :
    (token lib
      (call 4 "k")
      outside
      form
      (serve lib (opens ∷ []) (token lib (call 3 "access") outside form signed_up).1)).0
    ≡ refused invalid_grant
code_is_spent_once_example =
    code_is_spent_once lib (call 3 "access") (call 4 "k") outside outside form form (opens ∷ [])
      signed_up refl refl refl refl refl refl refl

-- Ann shares her phone number, which the service asked for.
abbrev phone : Item
phone = record {
  id = "r1";
  key = "phone";
  label = "Phone";
  user = "ann";
  workspace = "w";
  alias_of = "";
  kind = "text";
  format = "";
  value = "1";
  sealed = false;
  requested_by = "";
}

abbrev full_store : Store
full_store = record store { items = phone ∷ [] }

abbrev asks_phone : Ticket
asks_phone = record ticket { req = record request { link_keys = "phone" ∷ [] } }

abbrev shares_phone : Decision
shares_phone = record decision { links = ("phone", "r1") ∷ [] }

abbrev gives : Given
gives = record {
  granted = "openid" ∷ "email" ∷ [];
  choices = ("phone", "r1") ∷ [];
  keys = "phone" ∷ [];
  name = none;
  name_asked = false;
}

abbrev shared_phone : Shared
shared_phone = record {
  place = place;
  id = "l1";
  label = String.◌++◌ "Sign-in at " place.client_id;
  records = "r1" ∷ [];
  grants = ("phone", "r1") ∷ [];
  grant_token_hash = hash_token lib "t";
}

abbrev signed_world : World
signed_world = record {
  row = some (record {
    status = status_active;
    generation = 0;
    subject_version = 0;
    disconnected_at = none;
    new_id_on_return = false;
    link = "l1";
    name_record = "";
    name_identity = "";
    scopes = "email" ∷ [];
    last_sign_in_at = some 2;
  });
  link = some (record { id = "l1"; connection = ""; status = status_active; held_paused = false });
  detached = [];
  issued = 0 ∷ [];
}

abbrev saved : Saved
saved = record {
  store = record full_store { shared = shared_phone ∷ [] };
  world = signed_world;
  grant = some (record { id = "l1"; token = "t"; keys = "phone" ∷ [] });
  generation = 0;
}

approved :
    approve_ticket lib (call 2 "code") asks_phone shares_phone (started full_store)
    ≡ allowed (gives, saved)
unfolding ops
approved = refl

approval-IsSigned_and_IsAsked_example :
    IsSigned (call 2 "code") full_store "ann" shares_phone
    × IsAsked (call 2 "code") full_store "ann" asks_phone.req shares_phone gives
    × IsShared place full_store gives.keys gives.choices saved
    × (is_paused ((started full_store).sign_ins place).row ≡ false)
approval-IsSigned_and_IsAsked_example =
    approval-IsSigned_and_IsAsked lib (call 2 "code") asks_phone shares_phone (started full_store)
      approved

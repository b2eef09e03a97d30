-- ===== src/Oidc/Transactions.antt =====
-- The transaction of an approved sign-in: `oidcConsent` (routes/oidc.go).
use revoked.Prelude.{
  ℕ, String, Bool, false, not, Option, none, some, List, [], ◌∷◌, ◌++◌, ◌==◌, if◌then◌else◌,
  Verdict, refused, allowed, ◌>>=◌,
}
use revoked.Links.{status_active, status_paused, status_revoked}
use revoked.Connections.{Held}
use revoked.SignIns.{
  SignIn, SignInName, from_record, from_identity, World, Approval, sign_in_status, record_sign_in,
}
use revoked.Oidc.{Library, AuthRequest, SignInGrant, hash_token}
use revoked.Oidc.Shares.{
  Place, Store, Writes, NameChoice, Failure, sign_in_paused, database_error, name_from_record,
  save_sign_in_grant, save_sign_in_alias, drop_name_grant, save_sign_in_section,
}
use revoked.Oidc.Given.{lookup_text, Decision, Call, Given}

-- One key asked for: the entry chosen for it, if any, is filed under it.
unfoldable pub file_alias :
    Writes
    → Place
    → List (String × String)
    → String
    → List String
    → Store
    → Verdict Failure (Store × List String)
unfolding save_sign_in_alias
file_alias w p links key filed s =
    if not (lookup_text links key == "")
    then (save_sign_in_alias w p.user p.workspace key (lookup_text links key) s >>= λ saved.
        allowed (saved.0, if not (saved.1 == "") then filed ++ saved.1 ∷ [] else filed))
    else allowed (s, filed)

-- The loop over the keys asked for.
unfoldable pub file_aliases :
    Writes
    → Place
    → List (String × String)
    → List String
    → List String
    → Store
    → Verdict Failure (Store × List String)
unfolding file_alias
file_aliases w p links [] filed s = allowed (s, filed)
file_aliases w p links (key ∷ keys) filed s =
    file_alias w p links key filed s >>= λ done. file_aliases w p links keys done.1 done.0

-- The service's link as an approval that shares something leaves it, and as one that leaves it
-- nothing to read does.
abbrev pub active_link : String → Option Held → Option Held
active_link id none =
    some (record { id = id; connection = ""; status = status_active; held_paused = false })
active_link id (some l) = some (record l { status = status_active })

abbrev pub emptied_link : Bool → Option Held → Option Held
emptied_link empty none = none
emptied_link empty (some l) = some (if empty then record l { status = status_revoked } else l)

-- What the transaction has done before the row is saved.
pub record Sharing : Type 0 where
  pub store : Store
  pub link : Option Held
  pub link_id : String
  pub grant : Option SignInGrant
  pub filed : List String

abbrev no_change : Store → Option Held → List String → Sharing
no_change s link created = record {
  store = s;
  link = link;
  link_id = "";
  grant = none;
  filed = created;
}

module _ (lib : Library) where
  -- An approval that gives no entry takes back the name's, if a name was asked for.
  abbrev pub share_nothing :
      Call → Place → Decision → Given → Option Held → Store → Verdict Failure Sharing
  share_nothing c p body g link s =
      if g.name_asked
      then (drop_name_grant c.writes p s >>= λ dropped.
          allowed (no_change dropped.0 (emptied_link dropped.1 link) body.created))
      else allowed (no_change s link body.created)

  -- One that gives entries shares them and files each under its key.
  abbrev pub share_choices :
      Call → Place → AuthRequest → Decision → Given → Option Held → Store → Verdict Failure Sharing
  share_choices c p req body g link s =
      if not c.writes.makes_token
      then refused database_error
      else (save_sign_in_grant c.writes p g.choices (hash_token lib c.fresh_token) s >>= λ saved.
          file_aliases c.writes p body.links req.link_keys body.created saved.0 >>= λ after.
          allowed (record {
            store = after.0;
            link = active_link saved.1 link;
            link_id = saved.1;
            grant = some (record { id = saved.1; token = c.fresh_token; keys = g.keys });
            filed = after.1;
          }))

  -- The part of the transaction that gives, or takes back, what the service may read.
  unfoldable pub share :
      Call → Place → AuthRequest → Decision → Given → Option Held → Store → Verdict Failure Sharing
  unfolding file_aliases save_sign_in_grant drop_name_grant
  share c p req body g link s = elim g.choices as (λ _. Verdict Failure Sharing) [
    | [] ↦ share_nothing c p body g link s
    | _ ∷ _ ↦ share_choices c p req body g link s
  ]

-- What the transaction saves.
pub record Saved : Type 0 where
  pub store : Store
  pub world : World
  pub grant : Option SignInGrant
  pub generation : ℕ

abbrev pub is_paused : Option SignIn → Bool
is_paused none = false
is_paused (some row) = sign_in_status row == status_paused

abbrev pub sign_in_name : Option NameChoice → Option SignInName
sign_in_name none = none
sign_in_name (some n) =
    some (if n.kind == name_from_record then from_record n.id else from_identity n.id)

abbrev pub approval_of : Given → Sharing → Approval
approval_of g done = record {
  scopes = g.granted;
  link_id = done.link_id;
  name_asked = g.name_asked;
  name = sign_in_name g.name;
}

abbrev pub file_section : Writes → Place → Sharing → Verdict Failure Store
file_section w p done = elim done.filed as (λ _. Verdict Failure Store) [
  | [] ↦ allowed done.store
  | _ ∷ _ ↦ save_sign_in_section w p done.filed done.store
]

abbrev pub signed_in : Call → Approval → Sharing → World → World
signed_in c a done w =
    let row = record_sign_in c.now a w.row in
    record w { row = some row; link = done.link; issued = row.generation ∷ w.issued }

-- The row's save, with what was shared and filed before it.
abbrev pub save_row : Call → Given → Sharing → World → Store → Verdict Failure Saved
save_row c g done w filed =
    if not c.saves_sign_in
    then refused database_error
    else allowed (record {
      store = filed;
      world = signed_in c (approval_of g done) done w;
      grant = done.grant;
      generation = (record_sign_in c.now (approval_of g done) w.row).generation;
    })

module _ (lib : Library) where
  -- The transaction of an approval.
  unfoldable pub transact :
      Call → Place → AuthRequest → Decision → Given → World → Store → Verdict Failure Saved
  unfolding share record_sign_in save_sign_in_section
  transact c p req body g w s =
      if is_paused w.row
      then refused sign_in_paused
      else share lib c p req body g w.link s >>= λ done.
          file_section c.writes p done >>= save_row c g done w

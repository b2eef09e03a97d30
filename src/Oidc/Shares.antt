-- ===== src/Oidc/Shares.antt =====
-- What an approved sign-in shares and files: `SaveSignInGrant`, `SaveSignInAlias`,
-- `SaveSignInSection`, `DropSignInNameGrant`, `RecordNameValue` and `CheckSignInName`
-- (services/oidc.go). The state and the held pause of the service's link are in SignIns.
use Prim.Native.String
use revoked.Prelude.{
  ℕ, String, Bool, true, false, not, ◌&&◌, ◌||◌, Option, none, some, List, [], ◌∷◌, ◌++◌, ◌==◌, ltb,
  any, first, keep, map, contains, if◌then◌else◌, Verdict, refused, allowed, ◌>>=◌,
}
use revoked.Links.{status_active}

abbrev pub sign_in_name_key : String
sign_in_name_key = "name"

abbrev pub sign_in_section_prefix : String
sign_in_section_prefix = "signin_"

abbrev pub name_from_record : String
name_from_record = "record"

abbrev pub name_from_identity : String
name_from_identity = "identity"

abbrev pub max_name_runes : ℕ
max_name_runes = 200

abbrev pub max_section_name : ℕ
max_section_name = 93

-- A person's account at a service, from one of their workspaces.
pub record Place : Type 0 where
  pub user : String
  pub workspace : String
  pub client_id : String

abbrev pub same_place : Place → Place → Bool
same_place p q = p.user == q.user && p.workspace == q.workspace && p.client_id == q.client_id

-- A vault entry, as far as a sign-in reads and writes it.
pub record Item : Type 0 where
  pub id : String
  pub key : String
  pub label : String
  pub user : String
  pub workspace : String
  pub alias_of : String
  pub kind : String
  pub format : String
  pub value : String
  pub sealed : Bool
  pub requested_by : String

-- The grants of a service's link, without its random slug.
pub record Shared : Type 0 where
  pub place : Place
  pub id : String
  pub label : String
  pub records : List String
  pub grants : List (String × String)
  pub grant_token_hash : String

pub record Section : Type 0 where
  pub key : String
  pub name : String
  pub requested_by : String
  pub user : String
  pub workspace : String
  pub records : List String

-- The identities that a name or a signature is looked up in.
pub record Identity : Type 0 where
  pub id : String
  pub user : String
  pub status : String
  pub name : String
  pub certificate : String
  pub public_key : String
  pub is_primary : Bool
  pub fingerprint : String

pub record Store : Type 0 where
  pub items : List Item
  pub shared : List Shared
  pub sections : List Section
  pub identities : List Identity

-- Why a transaction ends.
pub data Failure : Type 0 where
  -- `errSignInPaused`, `ErrSignInRecord`, and any error of the database
  sign_in_paused record_invalid database_error : Failure

-- Functions of libraries, fresh ids, and which writes the database takes.
pub record Writes : Type 0 where
  -- `security.RandomString`: whether it is given, and the ids of new rows
  pub makes_token : Bool
  pub new_link : String
  pub new_item : String → String
  pub saves_link : Bool
  pub saves_item : String → Bool
  pub saves_section : Bool
  -- `Hostname` of an address that parses and has one; the lower-case form with "_" for what a
  -- section's key must not hold
  pub hostname : String → Option String
  pub key_form : String → String
  -- `strings.TrimSpace`, `utf8.RuneCountInString`, and the first so many characters
  pub trim_space : String → String
  pub rune_count : String → ℕ
  pub take_runes : ℕ → String → String

-- `app.FindRecordById` on records and identities
abbrev pub find_item : String → Store → Option Item
find_item id s = first (λ e. e.id == id) s.items

abbrev pub find_identity : String → Store → Option Identity
find_identity id s = first (λ i. i.id == id) s.identities

-- The entry that holds the value: the parent of an alias, where it is found.
abbrev pub holder : Store → Item → Item
holder s e =
    if e.alias_of == ""
    then e
    else elim (find_item e.alias_of s) [ none ↦ e | some parent ↦ parent ]

-- One choice of `SaveSignInGrant`: the entry that the grant points at.
abbrev pub granted_item : String → String → Store → String → Verdict Failure Item
granted_item user workspace s id = elim (find_item id s) as (λ _. Verdict Failure Item) [
  | none ↦ refused record_invalid
  | some e ↦
      if not (e.user == user) || not (e.workspace == workspace)
      then refused record_invalid
      else if (holder s e).sealed
      then refused record_invalid
      else allowed (holder s e)
]

abbrev pub add_new : List String → String → List String
add_new ids id = if not (contains ids id) then ids ++ id ∷ [] else ids

-- The loop of `SaveSignInGrant`, from the grants and records so far.
unfoldable pub collect :
    String
    → String
    → Store
    → List (String × String) × List String
    → List (String × String)
    → Verdict Failure (List (String × String) × List String)
collect user workspace s sofar [] = allowed sofar
collect user workspace s (grants, records) ((key, id) ∷ choices) =
    granted_item user workspace s id >>= λ e.
    collect user workspace s (grants ++ (key, e.id) ∷ [], add_new records e.id) choices

abbrev pub find_shared : Place → Store → Option Shared
find_shared p s = first (λ l. same_place l.place p) s.shared

abbrev put_shared : Shared → List Shared → List Shared
put_shared l ls = l ∷ keep (λ other. not (same_place other.place l.place)) ls

abbrev pub shared_id : Writes → Option Shared → String
shared_id w none = w.new_link
shared_id w (some l) = l.id

-- `SaveSignInGrant`: the store, and the link's id
unfoldable pub save_sign_in_grant :
    Writes → Place → List (String × String) → String → Store → Verdict Failure (Store × String)
unfolding collect
save_sign_in_grant w p choices token_hash s =
    collect p.user p.workspace s ([], []) choices >>= λ found.
    let link_id = shared_id w (find_shared p s) in
    let link : Shared = record {
      place = p;
      id = link_id;
      label = String.◌++◌ "Sign-in at " p.client_id;
      records = found.1;
      grants = found.0;
      grant_token_hash = token_hash;
    } in
    if not w.saves_link
    then refused database_error
    else allowed (record s { shared = put_shared link s.shared }, link_id)

-- The entry that an alias of a choice would read through.
abbrev pub alias_target : Store → String → Option Item
alias_target s id = elim (find_item id s) [
  | none ↦ none
  | some e ↦ if not (e.alias_of == "") then find_item e.alias_of s else some e
]

-- `SaveSignInAlias`: the store, and the new alias's id, or ""
unfoldable pub save_sign_in_alias :
    Writes → String → String → String → String → Store → Verdict Failure (Store × String)
save_sign_in_alias w user workspace key id s =
    elim (alias_target s id) as (λ _. Verdict Failure (Store × String)) [
      | none ↦ refused database_error
      | some parent ↦
          let alias : Item = record {
            id = w.new_item key;
            key = key;
            label = key;
            user = user;
            workspace = workspace;
            alias_of = parent.id;
            kind = parent.kind;
            format = parent.format;
            value = "";
            sealed = false;
            requested_by = "";
          } in
          if parent.kind == "file"
            || any (λ e. e.key == key && e.user == user && e.workspace == workspace) s.items
          then allowed (s, "")
          else if not (w.saves_item alias.id)
          then refused database_error
          else allowed (record s { items = alias ∷ s.items }, alias.id)
    ]

abbrev distinct_from : List String → List (String × String) → List String
distinct_from ids [] = ids
distinct_from ids ((key, id) ∷ grants) = distinct_from (add_new ids id) grants

abbrev pub distinct_ids : List (String × String) → List String
distinct_ids grants = distinct_from [] grants

abbrev pub is_empty {ℓ} : {A : Type ℓ} → List A → Bool
is_empty [] = true
is_empty (_ ∷ _) = false

-- `DropSignInNameGrant`: the store, and whether the link is left with nothing to read
unfoldable pub drop_name_grant : Writes → Place → Store → Verdict Failure (Store × Bool)
drop_name_grant w p s = elim (find_shared p s) as (λ _. Verdict Failure (Store × Bool)) [
  | none ↦ allowed (s, false)
  | some l ↦
      let grants = keep (λ g. not (g.0 == sign_in_name_key)) l.grants in
      let left = record l { grants = grants; records = distinct_ids grants } in
      if not (any (λ g. g.0 == sign_in_name_key) l.grants)
      then allowed (s, false)
      else if not w.saves_link
      then refused database_error
      else allowed (record s { shared = put_shared left s.shared }, is_empty grants)
]

abbrev host_of : String → Option String → String
host_of client_id none = client_id
host_of client_id (some host) = host

-- The name of a service's section.
abbrev section_host : Writes → String → String
section_host w client_id =
    let host = host_of client_id (w.hostname client_id) in
    if ltb max_section_name (w.rune_count host) then w.take_runes max_section_name host else host

-- One entry that is filed; one that is sealed or not theirs ends the sign-in.
abbrev pub mark_item : Writes → String → String → String → String → Store → Verdict Failure Store
mark_item w user workspace host id s = elim (find_item id s) as (λ _. Verdict Failure Store) [
  | none ↦ refused record_invalid
  | some e ↦
      let mark = λ (x : Item). if x.id == id then record x { requested_by = host } else x in
      if not (e.user == user) || not (e.workspace == workspace) || e.sealed
      then refused record_invalid
      else if not (w.saves_item id)
      then refused database_error
      else allowed (record s { items = map mark s.items })
]

abbrev section_or_new : String → String → Place → Option Section → Section
section_or_new key host p (some c) = c
section_or_new key host p none = record {
  key = key;
  name = host;
  requested_by = host;
  user = p.user;
  workspace = p.workspace;
  records = [];
}

abbrev add_all : List String → List String → List String
add_all records [] = records
add_all records (id ∷ ids) = add_all (add_new records id) ids

abbrev pub is_given {ℓ} : {A : Type ℓ} → Option A → Bool
is_given none = false
is_given (some _) = true

-- The loop of `SaveSignInSection`: each entry is marked as made for the service.
unfoldable pub mark_items :
    Writes → String → String → String → List String → Store → Verdict Failure Store
mark_items w user workspace host [] s = allowed s
mark_items w user workspace host (id ∷ ids) s =
    mark_item w user workspace host id s >>= mark_items w user workspace host ids

-- `SaveSignInSection`
unfoldable pub save_sign_in_section : Writes → Place → List String → Store → Verdict Failure Store
unfolding mark_items
save_sign_in_section w p ids s =
    let host = section_host w p.client_id in
    let key = String.◌++◌ sign_in_section_prefix (w.key_form host) in
    mark_items w p.user p.workspace host ids s >>= λ marked.
    let is_here = λ (c : Section). c.key == key && c.user == p.user && c.workspace == p.workspace in
    let found = section_or_new key host p (first is_here marked.sections) in
    let filed = record found { records = add_all found.records ids } in
    if not w.saves_section
    then refused database_error
    else allowed (record marked { sections = filed ∷ keep (λ c. not (is_here c)) marked.sections })

-- `SignInNameChoice`
pub record NameChoice : Type 0 where
  pub kind : String
  pub id : String

-- `RecordNameValue`
abbrev pub name_holder : Store → Item → Option Item
name_holder s e = if not (e.alias_of == "") then find_item e.alias_of s else some e

unfoldable pub record_name_value : Writes → Store → Item → Option String
record_name_value w s e = elim (name_holder s e) [
  | none ↦ none
  | some h ↦
      if h.sealed || not (h.kind == "text") || h.format == "hidden"
      then none
      else if w.trim_space h.value == "" || ltb max_name_runes (w.rune_count (w.trim_space h.value))
      then none
      else some (w.trim_space h.value)
]

-- `identityName`
unfoldable pub identity_name : Store → String → String → String
identity_name s user id = elim (find_identity id s) [
  | none ↦ ""
  | some i ↦ if not (i.user == user) || not (i.status == status_active) then "" else i.name
]

-- `CheckSignInName`
unfoldable pub check_sign_in_name : Writes → Store → String → NameChoice → Bool
unfolding record_name_value identity_name
check_sign_in_name w s user choice =
    if choice.kind == name_from_record
    then elim (find_item choice.id s) [
      | none ↦ false
      | some e ↦ e.user == user && is_given (record_name_value w s e)
    ]
    else choice.kind == name_from_identity && not (identity_name s user choice.id == "")

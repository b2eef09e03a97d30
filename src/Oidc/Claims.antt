-- ===== src/Oidc/Claims.antt =====
-- The claims that a service is given: `OIDCClaims`, `SignInName` and `PrimaryIdentity`
-- (services/oidc.go), and `PairwiseSubject` (util/oidc.go).
use revoked.Prelude.{
  ℕ, String, Bool, not, ◌&&◌, ◌||◌, Option, none, some, List, [], ◌∷◌, ◌++◌, ◌==◌, ltb, first,
  contains, if◌then◌else◌,
}
use revoked.Links.{status_active}
use revoked.SignIns.{SignIn, World}
use revoked.Oidc.{scope_profile, scope_email, scope_identity}
use revoked.Oidc.Shares.{
  Place, Identity, Store, Writes, find_item, record_name_value, identity_name,
}

-- `util.User`, as far as claims read it
pub record User : Type 0 where
  pub id : String
  pub email : String
  pub verified : Bool

pub record Claims : Type 0 where
  pub sub : String
  pub name : Option String
  pub email : Option (String × Bool)
  pub identity : Option String

-- HMAC-SHA-256 under the issuer's secret, of parts written one after the other, in base64, and the
-- decimal form of a number.
pub record Mac : Type 0 where
  pub digest : List String → String
  pub itoa : ℕ → String

abbrev zero_byte : String
zero_byte = "\0"

-- `PairwiseSubject`
unfoldable pub pairwise_subject : Mac → Place → ℕ → String
pairwise_subject m p version =
    let base = p.client_id ∷ zero_byte ∷ p.user ∷ zero_byte ∷ p.workspace ∷ [] in
    m.digest (if ltb 0 version then base ++ zero_byte ∷ m.itoa version ∷ [] else base)

abbrev pub version_of : Option SignIn → ℕ
version_of none = 0
version_of (some row) = row.subject_version

-- `PrimaryIdentity`
unfoldable pub primary_identity : Store → String → Option Identity
primary_identity s user =
    first (λ i. i.user == user && i.is_primary && i.status == status_active) s.identities

abbrev given_text : Option String → String
given_text none = ""
given_text (some value) = value

abbrev record_name : Writes → Store → Place → World → SignIn → String
record_name lib s p w row = elim w.link [
  | none ↦ ""
  | some l ↦
      if not (l.id == row.link) || not (l.status == status_active)
      then ""
      else elim (find_item row.name_record s) [
        | none ↦ ""
        | some e ↦ if not (e.user == p.user) then "" else given_text (record_name_value lib s e)
      ]
]

-- `SignInName`
unfoldable pub sign_in_name_of : Writes → Store → Place → World → String
unfolding identity_name record_name_value
sign_in_name_of lib s p w = elim w.row [
  | none ↦ ""
  | some row ↦
      if not (row.name_identity == "")
      then identity_name s p.user row.name_identity
      else if row.name_record == ""
      then ""
      else record_name lib s p w row
]

abbrev fingerprint_of : Option Identity → Option String
fingerprint_of none = none
fingerprint_of (some i) = some i.fingerprint

-- `OIDCClaims`
unfoldable pub oidc_claims : Mac → Writes → Store → World → User → Place → List String → Claims
unfolding pairwise_subject sign_in_name_of primary_identity
oidc_claims m lib s w u p scopes =
    let name = sign_in_name_of lib s p w in
    record {
      sub = pairwise_subject m p (version_of w.row);
      name = if contains scopes scope_profile && not (name == "") then some name else none;
      email = if contains scopes scope_email then some (u.email, u.verified) else none;
      identity =
          if contains scopes scope_identity
          then fingerprint_of (primary_identity s p.user)
          else none;
    }

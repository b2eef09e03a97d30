-- ===== src/Access/Declared.antt =====
-- What the table of requirements says (util/accessregistry.go).
use revoked.Prelude.{
  ◌≡◌, refl, inl, inr, String, Bool, true, not, ◌&&◌, ◌||◌, some, List, [], ◌∷◌, ◌==◌, contains,
  all, arith, eq_iff, subst, Bool-cases,
}
use revoked.Permissions.Scopes.{all_scopes}
use revoked.Access.{
  AccessSpec, access_user_self, kind_eq, owner_immutable, action_update,
  access_workspace_split_origin,
}
use revoked.Access.Registry.{Entry, collection_access, spec_among, access_spec_for}

-- What all entries of a table have, the requirement that is found has.
all-spec_among :
    (p : Entry → Bool) (es : List Entry) (collection action : String) {s : AccessSpec}
    → all p es ≡ true
    → spec_among es collection action ≡ some s
    → p (record { collection = collection; action = action; spec = s }) ≡ true
unfolding spec_among
all-spec_among p [] collection action h found = cc
all-spec_among p (e ∷ es) collection action {s} h found =
    elim (Bool-cases (e.collection == collection && e.action == action)) [
      | inl same ↦
          let its = eq_iff e.collection collection in
          let its' = eq_iff e.action action in
          let whole : e ≡ record { collection = collection; action = action; spec = s } =
            ground (arith, same, its, its') in
          subst (λ x. p x ≡ true) whole (ground arith)
      | inr other ↦
          all-spec_among p es collection action {s = s} (ground arith) (ground (arith, other))
    ]

-- A scope that is asked for is one of the catalogue's.
abbrev known_or_none : String → Bool
known_or_none scope = scope == "" || contains all_scopes scope

-- What every declaration has: known scopes, the response scope only where it is read, and an owner
-- that an update cannot change where the owner alone may write.
abbrev pub is_sound : Entry → Bool
is_sound e =
    known_or_none e.spec.scope
    && known_or_none e.spec.response_scope
    && (e.spec.response_scope == "" || kind_eq e.spec.kind access_workspace_split_origin)
    && (not (kind_eq e.spec.kind access_workspace_split_origin)
        || not (e.spec.response_scope == ""))
    && (not (kind_eq e.spec.kind access_user_self) || e.spec.scope == "")
    && (not (kind_eq e.spec.kind access_user_self)
        || not (e.action == action_update)
        || e.spec.extra == owner_immutable)

table_sound : all is_sound collection_access ≡ true
unfolding collection_access all_scopes
table_sound = refl

-- Every requirement that is declared asks for scopes of the catalogue only, has a scope for
-- responses exactly if it tells them apart, takes no API key where the owner alone may write, and
-- lets no update hand such a row to somebody else.
pub access_spec_for_sound :
    (collection action : String) {s : AccessSpec}
    → access_spec_for collection action ≡ some s
    → is_sound (record { collection = collection; action = action; spec = s }) ≡ true
unfolding access_spec_for
access_spec_for_sound collection action {s} found =
    all-spec_among is_sound collection_access collection action {s = s} table_sound found

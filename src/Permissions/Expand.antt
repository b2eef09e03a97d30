-- ===== src/Permissions/Expand.antt =====
-- What `ExpandPermissions` of util/permissions.go stores.
use revoked.Prelude.{
  String, ◌≡◌, refl, ap, Bool, false, not, ◌||◌, Option, none, some, List, [], ◌∷◌, ◌++◌, ◌==◌,
  eq_iff, contains, contains-append, contains-sort, any, keep, arith, sym, ◌∙◌, if◌then◌else◌,
  append-nil, append_assoc,
}
use revoked.Permissions.Catalogue.{Permission}
use revoked.Permissions.{
  permission_by_key, Expansion, add_scope, add_scopes, expand_key, expand_from, expand_permissions,
  is_permission,
}

-- Whether a permission, if there is one, has a scope.
abbrev pub has_scope : String → Option Permission → Bool
has_scope s none = false
has_scope s (some p) = contains p.scopes s

-- The map of the loop holds what the list holds.
abbrev SameSeen : Expansion → Type 0
SameSeen st = (s : String) → contains st.seen s ≡ contains st.scopes s

add_scope-SameSeen : (x : String) (st : Expansion) → SameSeen st → SameSeen (add_scope x st)
unfolding add_scope
add_scope-SameSeen x st h s = ground (arith, h s, contains-append st.scopes (x ∷ []) s)

contains-add_scope :
    (x : String) (st : Expansion) (s : String)
    → SameSeen st
    → contains (add_scope x st).scopes s ≡ (contains st.scopes s || x == s)
unfolding add_scope
contains-add_scope x st s h =
    ground (arith, h x, h s, eq_iff x s, contains-append st.scopes (x ∷ []) s)

unknown-add_scope : (x : String) (st : Expansion) → (add_scope x st).unknown ≡ st.unknown
unfolding add_scope
unknown-add_scope x st = ground arith

add_scopes-SameSeen :
    (ss : List String) (st : Expansion) → SameSeen st → SameSeen (add_scopes ss st)
unfolding add_scopes
add_scopes-SameSeen [] st h = h
add_scopes-SameSeen (x ∷ ss) st h =
    add_scopes-SameSeen ss (add_scope x st) (add_scope-SameSeen x st h)

contains-add_scopes :
    (ss : List String) (st : Expansion) (s : String)
    → SameSeen st
    → contains (add_scopes ss st).scopes s ≡ (contains st.scopes s || contains ss s)
unfolding add_scopes
contains-add_scopes [] st s h = ground arith
contains-add_scopes (x ∷ ss) st s h = ground (
  arith,
  contains-add_scopes ss (add_scope x st) s (add_scope-SameSeen x st h),
  contains-add_scope x st s h,
)

unknown-add_scopes : (ss : List String) (st : Expansion) → (add_scopes ss st).unknown ≡ st.unknown
unfolding add_scopes
unknown-add_scopes [] st = refl
unknown-add_scopes (x ∷ ss) st = unknown-add_scopes ss (add_scope x st) ∙ unknown-add_scope x st

expand_key-SameSeen :
    (key : String) (o : Option Permission) (st : Expansion)
    → SameSeen st
    → SameSeen (expand_key key o st)
unfolding expand_key
expand_key-SameSeen key none st h = h
expand_key-SameSeen key (some p) st h = add_scopes-SameSeen p.scopes st h

contains-expand_key :
    (key : String) (o : Option Permission) (st : Expansion) (s : String)
    → SameSeen st
    → contains (expand_key key o st).scopes s ≡ (contains st.scopes s || has_scope s o)
unfolding expand_key
contains-expand_key key none st s h = ground arith
contains-expand_key key (some p) st s h = contains-add_scopes p.scopes st s h

contains-expand_from :
    (keys : List String) (st : Expansion) (s : String)
    → SameSeen st
    → contains (expand_from keys st).scopes s
      ≡ (contains st.scopes s || any (λ key. has_scope s (permission_by_key key)) keys)
unfolding expand_from
contains-expand_from [] st s h = ground arith
contains-expand_from (key ∷ keys) st s h =
    let o = permission_by_key key in
    ground (
      arith,
      contains-expand_from keys (expand_key key o st) s (expand_key-SameSeen key o st h),
      contains-expand_key key o st s h,
    )

abbrev pub is_unknown : String → Bool
is_unknown key = not (is_permission (permission_by_key key))

unknown-expand_key :
    (key : String) (o : Option Permission) (st : Expansion) (rest : List String)
    → (expand_key key o st).unknown ++ rest
      ≡ st.unknown ++ (if not (is_permission o) then key ∷ rest else rest)
unfolding expand_key
unknown-expand_key key none st rest = append_assoc st.unknown (key ∷ []) rest
unknown-expand_key key (some p) st rest = ap (λ l. l ++ rest) (unknown-add_scopes p.scopes st)

unknown-expand_from :
    (keys : List String) (st : Expansion)
    → (expand_from keys st).unknown ≡ st.unknown ++ keep is_unknown keys
unfolding expand_from
unknown-expand_from [] st = sym (append-nil _)
unknown-expand_from (key ∷ keys) st =
    let o = permission_by_key key in
    unknown-expand_from keys (expand_key key o st)
    ∙ unknown-expand_key key o st (keep is_unknown keys)

-- The stored scopes are exactly those of the chosen permissions: no scope is lost, and none is
-- added that no chosen permission has.
pub expand_permissions_exact :
    (keys : List String) (s : String)
    → contains (expand_permissions keys).0 s ≡ any (λ key. has_scope s (permission_by_key key)) keys
unfolding expand_permissions
expand_permissions_exact keys s = contains-sort _ s ∙ contains-expand_from keys _ s (λ _. refl)

-- The unknown keys are reported, all of them and only those, in the order of the input.
pub expand_permissions_unknown :
    (keys : List String) → (expand_permissions keys).1 ≡ keep is_unknown keys
unfolding expand_permissions
expand_permissions_unknown keys = unknown-expand_from keys _

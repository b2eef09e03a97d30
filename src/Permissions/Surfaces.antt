-- ===== src/Permissions/Surfaces.antt =====
-- `SurfacesFor` of util/permissions.go against `ExpandPermissions`.
use revoked.Prelude.{
  String, ◌≡◌, refl, Bool, true, false, not, ◌&&◌, Option, none, some, List, [], ◌∷◌, ◌==◌, eq_iff,
  contains, all, any, keep, first, map, arith, sym, ◌∙◌, Option-cases, ◌↔◌, and-true_iff,
  or-true_iff, contains-cons, contains-here, contains-later, inl, inr,
}
use revoked.Permissions.Catalogue.{Permission, permissions}
use revoked.Permissions.{
  permission_by_key, complete, surfaces_for, expand_permissions, is_permission, covers,
}
use revoked.Permissions.Expand.{has_scope, expand_permissions_exact}

-- Every text of a list is in another.
abbrev pub subset : List String → List String → Type 0
subset xs ys = (s : String) → contains xs s ≡ true → contains ys s ≡ true

abbrev is_some_p : (Permission → Bool) → Option Permission → Bool
is_some_p t none = false
is_some_p t (some p) = t p

-- In a list whose keys differ, a key is listed after a filter exactly if the first entry with that
-- key passes the filter.
abbrev fresh : List Permission → Bool
fresh [] = true
fresh (p ∷ ps) = not (contains (map (λ q. q.key) ps) p.key) && fresh ps

contains-map-keep :
    (t : Permission → Bool) (ps : List Permission) (key : String)
    → contains (map (λ q. q.key) ps) key ≡ false
    → contains (map (λ q. q.key) (keep t ps)) key ≡ false
contains-map-keep t [] key h = refl
contains-map-keep t (p ∷ ps) key h = ground (arith, contains-map-keep t ps key)

contains-keep-first :
    (t : Permission → Bool) (ps : List Permission) (key : String)
    → fresh ps ≡ true
    → contains (map (λ q. q.key) (keep t ps)) key ≡ is_some_p t (first (λ q. q.key == key) ps)
contains-keep-first t [] key h = refl
contains-keep-first t (p ∷ ps) key h =
    ground (arith, contains-keep-first t ps key, contains-map-keep t ps key, eq_iff p.key key)

fresh_catalogue : fresh permissions ≡ true
unfolding permissions
fresh_catalogue = refl

contains-surfaces_for :
    (scopes : List String) (key : String)
    → contains (surfaces_for scopes) key ≡ is_some_p (complete scopes) (permission_by_key key)
unfolding surfaces_for permission_by_key
contains-surfaces_for scopes key =
    contains-keep-first (complete scopes) permissions key fresh_catalogue

-- `all (contains ys) xs` decides `subset xs ys`.
pub all-contains : (xs ys : List String) → subset xs ys → all (contains ys) xs ≡ true
all-contains [] ys h = refl
all-contains (x ∷ xs) ys h =
    (and-true_iff _ _).1
      (h x (contains-here x xs), all-contains xs ys (λ s m. h s (contains-later x xs s m)))

pub subset_of_all : (xs ys : List String) → all (contains ys) xs ≡ true → subset xs ys
subset_of_all [] ys h s m = cc
subset_of_all (x ∷ xs) ys h s m =
    let (here, later) = (and-true_iff (contains ys x) (all (contains ys) xs)).0 h in
    elim (contains-cons x xs s m) [
      | inl e ↦ rw (← e) here
      | inr more ↦ subset_of_all xs ys later s more
    ]

abbrev pub nonempty : Permission → Bool
nonempty p = elim p.scopes [ [] ↦ false | _ ∷ _ ↦ true ]

nonempty-first :
    (t : Permission → Bool) (ps : List Permission) {p : Permission}
    → all nonempty ps ≡ true
    → first t ps ≡ some p
    → nonempty p ≡ true
nonempty-first t [] h e = cc
nonempty-first t (q ∷ ps) {p} h e = ground (arith, nonempty-first t ps {p = p})

nonempty_catalogue : all nonempty permissions ≡ true
unfolding permissions
nonempty_catalogue = refl

complete-eq-all :
    (scopes : List String) (p : Permission)
    → nonempty p ≡ true
    → complete scopes p ≡ all (contains scopes) p.scopes
unfolding complete
complete-eq-all scopes p h = ground arith

first-eq : (key : String) → permission_by_key key ≡ first (λ q. q.key == key) permissions
unfolding permission_by_key
first-eq key = refl

-- No permission of the catalogue is empty.
pub nonempty_permission :
    (key : String) {p : Permission} → permission_by_key key ≡ some p → nonempty p ≡ true
nonempty_permission key {p} e =
    nonempty-first (λ q. q.key == key) permissions {p = p} nonempty_catalogue
      (sym (first-eq key) ∙ e)

-- A key's permission, if there is one, is complete exactly if the scopes cover it.
contains-surfaces_for-covers :
    (scopes : List String) (key : String)
    → contains (surfaces_for scopes) key ≡ covers scopes (permission_by_key key)
unfolding covers
contains-surfaces_for-covers scopes key = elim (Option-cases (permission_by_key key)) [
  | inl e ↦ contains-surfaces_for scopes key ∙ rw e
  | inr (p, e) ↦
      contains-surfaces_for scopes key
      ∙ rw e (
          complete-eq-all scopes p (
            nonempty-first (λ q. q.key == key) permissions nonempty_catalogue
              (sym (first-eq key) ∙ e)))
]

all-at :
    (t : String → Bool) (keys : List String) (key : String)
    → all t keys ≡ true
    → contains keys key ≡ true
    → t key ≡ true
all-at t [] key h m = cc
all-at t (k ∷ keys) key h m =
    let (here, later) = (and-true_iff (t k) (all t keys)).0 h in
    elim (contains-cons k keys key m) [
      | inl e ↦ rw (← e) here
      | inr more ↦ all-at t keys key later more
    ]

any-of_contains :
    (t : String → Bool) (keys : List String) (key : String)
    → contains keys key ≡ true
    → t key ≡ true
    → any t keys ≡ true
any-of_contains t [] key m h = cc
any-of_contains t (k ∷ keys) key m h =
    (or-true_iff (t k) (any t keys)).1 (elim (contains-cons k keys key m) [
      | inl e ↦ inl (rw e h)
      | inr more ↦ inr (any-of_contains t keys key more h)
    ])

contains-of_any :
    (t : String → Bool) (keys : List String)
    → any t keys ≡ true
    → (key : String) × (contains keys key ≡ true) × (t key ≡ true)
contains-of_any t [] h = cc
contains-of_any t (k ∷ keys) h = elim ((or-true_iff (t k) (any t keys)).0 h) [
  | inl here ↦ (k, contains-here k keys, here)
  | inr more ↦
      let (key, m, e) = contains-of_any t keys more in (key, contains-later k keys key m, e)
]

abbrev grants : String → String → Bool
grants s key = has_scope s (permission_by_key key)

covers-subset :
    (scopes : List String) (o : Option Permission) (s : String)
    → covers scopes o ≡ true
    → has_scope s o ≡ true
    → contains scopes s ≡ true
unfolding covers
covers-subset scopes none s h m = cc
covers-subset scopes (some p) s h m = subset_of_all p.scopes scopes h s m

covers_of_subset :
    (scopes : List String) (o : Option Permission)
    → is_permission o ≡ true
    → ((s : String) → has_scope s o ≡ true → contains scopes s ≡ true)
    → covers scopes o ≡ true
unfolding covers
covers_of_subset scopes none k h = cc
covers_of_subset scopes (some p) k h = all-contains p.scopes scopes h

-- Where every key is a known permission, the scopes that a grant of the keys stores lie within a
-- scope set exactly if each key is among the permissions that the scope set is shown to satisfy.
pub expand-le-surfaces_for :
    (keys scopes : List String)
    → all (λ key. is_permission (permission_by_key key)) keys ≡ true
    → subset (expand_permissions keys).0 scopes ↔ subset keys (surfaces_for scopes)
expand-le-surfaces_for keys scopes known = (
  λ h key m.
      contains-surfaces_for-covers scopes key
      ∙ covers_of_subset scopes (permission_by_key key) (all-at _ keys key known m) (λ s inside.
        h s (expand_permissions_exact keys s ∙ any-of_contains (grants s) keys key m inside)),
  λ h s m.
      let (key, listed, inside) =
        contains-of_any (grants s) keys (sym (expand_permissions_exact keys s) ∙ m) in
      covers-subset scopes (permission_by_key key) s
        (sym (contains-surfaces_for-covers scopes key) ∙ h key listed) inside,
)

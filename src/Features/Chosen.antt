-- ===== src/Features/Chosen.antt =====
-- What a normalized choice of features holds (util/features.go).
use revoked.Prelude.{
  ◌≡◌, refl, subst, String, true, ◌&&◌, List, [], ◌∷◌, ◌==◌, eq_iff, contains, all, any, arith,
  Bool-cases, inl, inr,
}
use revoked.Features.{Feature, features, chosen_among, is_known, unknown_among, normalize_features}

is_known-any : (fs : List Feature) (k : String) → is_known fs k ≡ any (λ f. f.key == k) fs
is_known-any [] k = refl
is_known-any (f ∷ fs) k = ground (arith, is_known-any fs k)

-- A key is chosen exactly if it was given and is known.
chosen-contains :
    (fs : List Feature) (keys : List String) (k : String)
    → contains (chosen_among fs keys) k ≡ (contains keys k && any (λ f. f.key == k) fs)
chosen-contains [] keys k = ground arith
chosen-contains (f ∷ fs) keys k = elim (Bool-cases (f.key == k)) [
  | inl same ↦
      let at =
        subst (λ (l : String). contains keys f.key ≡ contains keys l) ((eq_iff f.key k).0 same)
          refl in
      ground (arith, chosen-contains fs keys k, at)
  | inr other ↦ ground (arith, chosen-contains fs keys k)
]

-- Choosing again among what was chosen changes nothing.
chosen-again :
    (all_fs fs : List Feature) (keys : List String)
    → all (λ f. any (λ g. g.key == f.key) all_fs) fs ≡ true
    → chosen_among fs (chosen_among all_fs keys) ≡ chosen_among fs keys
chosen-again all_fs [] keys h = refl
chosen-again all_fs (f ∷ fs) keys h =
    ground (arith, chosen-contains all_fs keys f.key, chosen-again all_fs fs keys)

chosen-known :
    (all_fs fs : List Feature) (keys out : List String)
    → all (λ f. any (λ g. g.key == f.key) all_fs) fs ≡ true
    → unknown_among all_fs out (chosen_among fs keys) ≡ out
chosen-known all_fs [] keys out h = refl
chosen-known all_fs (f ∷ fs) keys out h =
    ground (arith, is_known-any all_fs f.key, chosen-known all_fs fs keys out)

normal-among :
    (fs : List Feature) (keys : List String)
    → all (λ f. any (λ g. g.key == f.key) fs) fs ≡ true
    → Path
        (List String × List String)
        (chosen_among fs (chosen_among fs keys), unknown_among fs [] (chosen_among fs keys))
        (chosen_among fs keys, [])
normal-among fs keys whole =
    rw (chosen-again fs fs keys whole, chosen-known fs fs keys [] whole) refl

catalogue : all (λ f. any (λ g. g.key == f.key) features) features ≡ true
unfolding features
catalogue = refl

-- A normalized choice is normal: it is its own normal form, and nothing in it is unknown.
pub normalize-twice :
    (keys : List String)
    → normalize_features (normalize_features keys).0 ≡ ((normalize_features keys).0, [])
unfolding normalize_features
normalize-twice keys = normal-among features keys catalogue

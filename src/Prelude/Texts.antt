-- ===== src/Prelude/Texts.antt =====
-- Lists of texts: `slices.Contains` and `slices.Sort` of Go's standard library.
use Prim.Native.Char.{code}
use Prim.Native.String.{String}
use mathlib.Core.Path.{◌≡◌, refl}
use mathlib.Core.Bool.{Bool, true, false, not, ◌&&◌, ◌||◌}
use mathlib.Core.Logic.{◌⊎◌}
use mathlib.Core.List.{List, [], ◌∷◌, ◌++◌}
use native.Mathlib.Omega.{arith}
use text.Mathlib.Text.{◌==◌}
use text.Mathlib.TextEquality.{eq_iff}
use revoked.Prelude.Tests.{ltb, if◌then◌else◌}

abbrev pub contains : List String → String → Bool
contains [] s = false
contains (x ∷ xs) s = x == s || contains xs s

-- `a <= b` on texts: by code points, which is the order of their UTF-8 bytes.
unfoldable pub text_leb : String → String → Bool
text_leb String.[] t = true
text_leb (String.◌∷◌ c s) String.[] = false
text_leb (String.◌∷◌ c s) (String.◌∷◌ d t) =
    let rest = text_leb s t in
    if ltb (code c) (code d) then true else if ltb (code d) (code c) then false else rest

unfoldable pub insert_sorted : String → List String → List String
unfolding text_leb
insert_sorted s [] = s ∷ []
insert_sorted s (x ∷ xs) =
    let rest = insert_sorted s xs in if text_leb s x then s ∷ x ∷ xs else x ∷ rest

-- `slices.Sort`
unfoldable pub sort : List String → List String
unfolding insert_sorted
sort [] = []
sort (x ∷ xs) = insert_sorted x (sort xs)

pub contains-append :
    (xs ys : List String) (s : String) → contains (xs ++ ys) s ≡ (contains xs s || contains ys s)
contains-append [] ys s = refl
contains-append (x ∷ xs) ys s = ground (arith, contains-append xs ys s)

pub contains-insert_sorted :
    (x s : String) (xs : List String) → contains (insert_sorted x xs) s ≡ (x == s || contains xs s)
unfolding insert_sorted
contains-insert_sorted x s [] = refl
contains-insert_sorted x s (y ∷ xs) = ground (arith, contains-insert_sorted x s xs)

-- Sorting keeps what is there.
pub contains-sort : (xs : List String) (s : String) → contains (sort xs) s ≡ contains xs s
unfolding sort
contains-sort [] s = refl
contains-sort (x ∷ xs) s = ground (arith, contains-insert_sorted x s (sort xs), contains-sort xs s)

pub contains-cons :
    (x : String) (xs : List String) (s : String)
    → contains (x ∷ xs) s ≡ true
    → (x ≡ s) ⊎ (contains xs s ≡ true)
contains-cons x xs s h = ground (arith, eq_iff x s)

pub contains-here : (x : String) (xs : List String) → contains (x ∷ xs) x ≡ true
contains-here x xs = ground (arith, eq_iff x x)

pub contains-later :
    (x : String) (xs : List String) (s : String) → contains xs s ≡ true → contains (x ∷ xs) s ≡ true
contains-later x xs s h = ground arith

-- No text occurs twice.
abbrev pub distinct : List String → Bool
distinct [] = true
distinct (x ∷ xs) = not (contains xs x) && distinct xs

pub distinct-add :
    (xs : List String) (s : String)
    → distinct xs ≡ true
    → contains xs s ≡ false
    → distinct (xs ++ s ∷ []) ≡ true
distinct-add [] s d new = refl
distinct-add (x ∷ xs) s d new =
    ground (arith, distinct-add xs s, contains-append xs (s ∷ []) x, eq_iff x s, eq_iff s x)

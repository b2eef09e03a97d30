-- ===== src/Archive/Safe.antt =====
-- A safe file name carries nothing that a header or an archive's entry must not
-- (services/archive.go).
use Prim.Native.Char.{Char}
use Prim.Native.String
use text.Mathlib.TextLemmas.{nil-append, cons-append}
use revoked.Prelude.{◌≡◌, refl, String, Bool, true, false, not, ◌&&◌, arith, inl, inr, Bool-cases}
use revoked.Archive.{Library, only_dots, is_separator, is_dropped, map_name, safe_file_name}

-- Every character of a text passes a test.
unfoldable pub every : (Char → Bool) → String → Bool
every p String.[] = true
every p (String.◌∷◌ c s) = p c && every p s

every-append :
    (p : Char → Bool) (s t : String)
    → every p s ≡ true
    → every p t ≡ true
    → every p (String.◌++◌ s t) ≡ true
unfolding every
every-append p String.[] t h k = rw (nil-append t) k
every-append p (String.◌∷◌ c s) t h k =
    let rest = every-append p s t (ground (arith, h)) k in
    rw (cons-append c s t) (ground (arith, h, rest))

module _ (lib : Library) where
  -- No path separator, no quote and no control character.
  abbrev pub is_plain : Char → Bool
  is_plain c = not (is_separator lib c) && not (is_dropped lib c)

  map_name-plain :
      (s : String)
      → every (λ c. not (lib.is_control c)) "file_" ≡ true
      → every is_plain (map_name lib s) ≡ true
  unfolding map_name every
  map_name-plain String.[] ok = refl
  map_name-plain (String.◌∷◌ c s) ok =
      let rest = map_name-plain s ok in
      elim (Bool-cases (is_separator lib c)) [
        | inl separates ↦
            rw separates (every-append is_plain "_" (map_name lib s) (ground (arith, ok)) rest)
        | inr plain ↦ elim (Bool-cases (is_dropped lib c)) [
          | inl dropped ↦ rw (plain, dropped) rest
          | inr kept ↦ rw (plain, kept) (ground (arith, plain, kept, rest))
        ]
      ]

  -- Whatever a file is called, its safe name has no path separator, quote or control character, and
  -- is neither empty nor only dots, given that trimming only takes characters away and that letters
  -- are no control characters.
  pub safe_file_name-IsPlain :
      (s : String)
      → ((p : Char → Bool) (t : String) → every p t ≡ true → every p (lib.trim_space t) ≡ true)
      → every (λ c. not (lib.is_control c)) "file_" ≡ true
      → (every is_plain (safe_file_name lib s) ≡ true) × (only_dots (safe_file_name lib s) ≡ false)
  unfolding safe_file_name every
  safe_file_name-IsPlain s trims ok =
      let plain = trims is_plain (map_name lib s) (map_name-plain s ok) in
      elim (Bool-cases (only_dots (lib.trim_space (map_name lib s)))) [
        | inl dots ↦ rw dots (ground (arith, ok), refl)
        | inr named ↦ rw named (plain, named)
      ]

-- ===== src/Archive/Tests.antt =====
-- Runs of archives.
use Prim.Native.Char.{code}
use Prim.Native.String
use text.Mathlib.TextLemmas.{append_cancel_left, append_cancel_right, length-append}
use revoked.Prelude.{
  sym, ◌≡◌, refl, ap, ◌∙◌, ℕ, zero, suc, String, true, false, none, some, List, [], ◌∷◌, contains,
  arith, ltb,
}
use revoked.Archive.{
  Library, FileRecord, Files, Archive, only_dots, map_name, safe_file_name, find_name, search_name,
  unique_entry_name, write_files,
}
use revoked.Archive.Names.{IsApart, IsDistinct, name_is_found, write_files-IsDistinct}

-- A number as so many strokes.
unfoldable strokes : ℕ → String
strokes zero = String.[]
strokes (suc n) = String.◌++◌ "i" (strokes n)

abbrev lib : Library
lib = record {
  is_control = λ c. ltb (code c) 32;
  trim_space = λ s. s;
  to_lower = λ s. s;
  itoa = strokes;
  ext = λ s. "";
  trim_suffix = λ s ext. s;
}

abbrev photo : FileRecord
photo = record { id = "r1"; kind = "file"; file = "f1"; filename = "a/b" }

abbrev files : Files
files = record { opens = λ rec. true; stamps = λ rec. none; takes = λ name. true }

abbrev empty : Archive
empty = record { entries = []; taken = []; failed = false }

-- Three files of one name.
three :
    (write_files lib files false (photo ∷ photo ∷ photo ∷ []) empty).entries
    ≡ "a_b (iii)" ∷ "a_b (ii)" ∷ "a_b" ∷ []
unfolding write_files unique_entry_name find_name safe_file_name map_name only_dots strokes
three = refl

count-strokes : (n : ℕ) → String.count (strokes n) ≡ n
unfolding strokes
count-strokes zero = refl
count-strokes (suc n) = omega (arith, length-append "i" (strokes n), count-strokes n)

apart : IsApart lib
apart base ext m n same =
    let tail = append_cancel_left base _ _ same in
    let digits = append_cancel_left " (" _ _ tail in
    let strokes_same = append_cancel_right (strokes m) (strokes n) (String.◌++◌ ")" ext) digits in
    sym (count-strokes m) ∙ ap String.count strokes_same ∙ count-strokes n

abbrev taken : List String
taken = "x (ii)" ∷ "x" ∷ []

name_is_found_example :
    (c : String) × (search_name lib taken "x" ≡ some c) × (contains taken (lib.to_lower c) ≡ false)
name_is_found_example = name_is_found lib taken "x" apart

write_files-IsDistinct_example :
    IsDistinct lib (write_files lib files false (photo ∷ photo ∷ photo ∷ []) empty)
write_files-IsDistinct_example =
    write_files-IsDistinct lib files false (photo ∷ photo ∷ photo ∷ []) empty apart (refl, refl)

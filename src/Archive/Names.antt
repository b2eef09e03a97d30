-- ===== src/Archive/Names.antt =====
-- The names in an archive are found, and differ (services/archive.go).
use revoked.Prelude.{
  ◌≡◌, refl, ap, subst, ℕ, zero, suc, ◌+◌, ◌≤◌, ◌<◌, String, Bool, true, false, not, some, List, [],
  ◌∷◌, ◌==◌, map, arith, eq_iff, length, keep, contains, distinct, inl, inr, if-either, Bool-cases,
  Option-cases,
}
use revoked.Archive.{
  Library, FileRecord, Files, Archive, numbered, find_name, search_name, found_name,
  unique_entry_name, add_entry, stamped_name, file_download_name, write_file, write_files,
  safe_file_name,
}

abbrev without : String → List String → List String
without s xs = keep (λ x. not (x == s)) xs

contains-without :
    (s t : String) (xs : List String)
    → (t == s) ≡ false
    → contains xs t ≡ true
    → contains (without s xs) t ≡ true
contains-without s t [] other h = h
contains-without s t (x ∷ xs) other h =
    ground (arith, contains-without s t xs, eq_iff x s, eq_iff x t, eq_iff t s)

length-without_le : (s : String) (xs : List String) → length (without s xs) ≤ length xs
length-without_le s [] = omega arith
length-without_le s (x ∷ xs) = ground (arith, length-without_le s xs)

length-without :
    (s : String) (xs : List String) → contains xs s ≡ true → length (without s xs) < length xs
length-without s [] h = cc
length-without s (x ∷ xs) h = ground (arith, length-without s xs, length-without_le s xs)

module _ (lib : Library) where
  -- Numbered names differ in lower case: numbers print differently, and lower-casing keeps digits.
  abbrev pub IsApart : Type 0
  IsApart =
      (base ext : String) (m n : ℕ)
      → lib.to_lower (numbered lib base ext m) ≡ lib.to_lower (numbered lib base ext n)
      → m ≡ n

  -- The taken names that a numbered one from n on may meet are among the rest.
  abbrev Within : List String → String → String → ℕ → List String → Type 0
  Within taken base ext n rest =
      (m : ℕ)
      → n ≤ m
      → contains taken (lib.to_lower (numbered lib base ext m)) ≡ true
      → contains rest (lib.to_lower (numbered lib base ext m)) ≡ true

  Within-next :
      (taken rest : List String) (base ext : String) (n : ℕ)
      → IsApart
      → Within taken base ext n rest
      → Within taken base ext (n + 1) (without (lib.to_lower (numbered lib base ext n)) rest)
  Within-next taken rest base ext n apart within m later there =
      let this = lib.to_lower (numbered lib base ext n) in
      let that = lib.to_lower (numbered lib base ext m) in
      elim (Bool-cases (that == this)) [
        | inl same ↦
            let met = apart base ext m n ((eq_iff that this).0 same) in
            absurd (omega (arith, met, later))
        | inr other ↦ contains-without this that rest other (within m (omega (arith, later)) there)
      ]

  find_numbered :
      (rounds : ℕ) (taken rest : List String) (base ext : String) (n : ℕ)
      → IsApart
      → Within taken base ext n rest
      → length rest < rounds
      → (c : String) × (find_name lib rounds taken base ext (n + 1) (numbered lib base ext n)
          ≡ some c)
  unfolding find_name
  find_numbered zero taken rest base ext n apart within enough = absurd (omega (arith, enough))
  find_numbered (suc rounds) taken rest base ext n apart within enough =
      let this = lib.to_lower (numbered lib base ext n) in
      elim (Bool-cases (contains taken this)) [
        | inl there ↦
            let fewer = length-without this rest (within n (omega arith) there) in
            let (c, found) =
              find_numbered rounds taken (without this rest) base ext (n + 1) apart
                (Within-next taken rest base ext n apart within) (omega (arith, fewer, enough)) in
            (c, rw there found)
        | inr free ↦ (numbered lib base ext n, rw free refl)
      ]

  find_name-free :
      {c : String} (rounds : ℕ) (taken : List String) (base ext : String) (n : ℕ)
      (candidate : String)
      → find_name lib rounds taken base ext n candidate ≡ some c
      → contains taken (lib.to_lower c) ≡ false
  unfolding find_name
  find_name-free zero taken base ext n candidate found = cc
  find_name-free {c} (suc rounds) taken base ext n candidate found =
      elim (Bool-cases (contains taken (lib.to_lower candidate))) [
        | inl there ↦
            find_name-free {c = c} rounds taken base ext (n + 1) (numbered lib base ext n)
              (ground (arith, there, found))
        | inr free ↦
            let same : some candidate ≡ some c = ground (arith, free, found) in
            subst (λ o. contains taken (lib.to_lower (found_name lib candidate o)) ≡ false) same
              free
      ]

  search_found :
      (taken : List String) (name : String)
      → IsApart
      → (c : String) × (search_name lib taken name ≡ some c)
  unfolding find_name
  search_found taken name apart =
      let ext = lib.ext name in
      let base = lib.trim_suffix name ext in
      elim (Bool-cases (contains taken (lib.to_lower name))) [
        | inl there ↦
            let (c, found) =
              find_numbered (suc (length taken)) taken taken base ext 2 apart (λ m le h. h)
                (omega arith) in
            (c, rw there found)
        | inr free ↦ (name, rw free refl)
      ]

  -- The loop that numbers a repeated name ends, after at most two rounds more than there are names
  -- taken, and the name that it finds is not taken in lower case.
  pub name_is_found :
      (taken : List String) (name : String)
      → IsApart
      → (c : String) × (search_name lib taken name ≡ some c)
        × (contains taken (lib.to_lower c) ≡ false)
  unfolding find_name
  name_is_found taken name apart =
      let ext = lib.ext name in
      let base = lib.trim_suffix name ext in
      let (c, found) = search_found taken name apart in
      (c, found, find_name-free (suc (suc (length taken))) taken base ext 2 name found)

  unique-free :
      (taken : List String) (name : String)
      → IsApart
      → contains taken (lib.to_lower (unique_entry_name lib taken name)) ≡ false
  unfolding unique_entry_name
  unique-free taken name apart =
      let (c, found, free) = name_is_found taken name apart in rw found free

  -- What is taken are the lower-case forms of the entries, and they differ.
  abbrev pub IsDistinct : Archive → Type 0
  IsDistinct a = (a.taken ≡ map lib.to_lower a.entries) × (distinct a.taken ≡ true)

  add_entry-IsDistinct :
      (files : Files) (name : String) (a : Archive)
      → IsApart
      → IsDistinct a
      → IsDistinct (add_entry lib files name a)
  add_entry-IsDistinct files name a apart (same, apart_names) =
      let entry = unique_entry_name lib a.taken (safe_file_name lib name) in
      let free = unique-free a.taken (safe_file_name lib name) apart in
      elim (Bool-cases (not (files.takes entry))) [
        | inl fails ↦ rw fails (same, apart_names)
        | inr takes ↦
            rw takes
              (ap (λ names. lib.to_lower entry ∷ names) same, ground (arith, free, apart_names))
      ]

  write_file-IsDistinct :
      (files : Files) (stamped : Bool) (rec : FileRecord) (a : Archive)
      → IsApart
      → IsDistinct a
      → IsDistinct (write_file lib files stamped rec a)
  write_file-IsDistinct files true rec a apart h = elim (Option-cases (files.stamps rec)) [
    | inl plain ↦ rw (plain, write_file) h
    | inr (ext, stamp) ↦
        rw (stamp, write_file) (add_entry-IsDistinct files (stamped_name lib rec ext) a apart h)
  ]
  write_file-IsDistinct files false rec a apart h = elim (Bool-cases (not (files.opens rec))) [
    | inl shut ↦ rw (shut, write_file) h
    | inr opened ↦
        rw (opened, write_file) (add_entry-IsDistinct files (file_download_name rec) a apart h)
  ]

  -- Whatever the files are called, and whichever of them cannot be read, stamped or written, no two
  -- entries of an archive have the same name up to case.
  pub write_files-IsDistinct :
      (files : Files) (stamped : Bool) (recs : List FileRecord) (a : Archive)
      → IsApart
      → IsDistinct a
      → IsDistinct (write_files lib files stamped recs a)
  unfolding write_files
  write_files-IsDistinct files stamped [] a apart h = h
  write_files-IsDistinct files stamped (rec ∷ recs) a apart h =
      let next = write_file lib files stamped rec a in
      if-either IsDistinct a.failed a (write_files lib files stamped recs next) h (
        write_files-IsDistinct files stamped recs next apart
          (write_file-IsDistinct files stamped rec a apart h))

-- ===== src/Archive.antt =====
-- Archives of a link's files (services/archive.go).
pub mod Safe
pub mod Names
mod Tests
use Prim.Native.Char.{Char, code}
use Prim.Native.String
use revoked.Prelude.{
  ◌≡◌, ℕ, zero, suc, ◌+◌, String, Bool, true, false, not, ◌&&◌, ◌||◌, Option, none, some, List, [],
  ◌∷◌, ◌++◌, ◌==◌, eqb, length, keep, contains, if◌then◌else◌,
}

-- Functions of Go's standard library: `unicode.IsControl`, `strings.TrimSpace`, `strings.ToLower`,
-- `strconv.Itoa`, `filepath.Ext` and `strings.TrimSuffix`.
pub record Library : Type 0 where
  pub is_control : Char → Bool
  pub trim_space : String → String
  pub to_lower : String → String
  pub itoa : ℕ → String
  pub ext : String → String
  pub trim_suffix : String → String → String

-- A record of the vault, as far as an archive reads it.
pub record FileRecord : Type 0 where
  pub id : String
  pub kind : String
  pub file : String
  pub filename : String

-- `FileRecords`: a record that could not be loaded is `none`.
unfoldable pub file_records : List (Option FileRecord) → List FileRecord
file_records [] = []
file_records (none ∷ records) = file_records records
file_records (some rec ∷ records) =
    let rest = file_records records in
    if not (rec.kind == "file") || rec.file == "" then rest else rec ∷ rest

-- `FileDownloadName`
abbrev pub file_download_name : FileRecord → String
file_download_name rec = if not (rec.filename == "") then rec.filename else rec.file

-- `strings.Trim(name, ".") == ""`
unfoldable pub only_dots : String → Bool
only_dots String.[] = true
only_dots (String.◌∷◌ c s) = eqb (code c) 46 && only_dots s

-- What the storage and the watermark answer for a file, and which entries the archive takes.
pub record Files : Type 0 where
  pub opens : FileRecord → Bool
  pub stamps : FileRecord → Option String
  pub takes : String → Bool

-- The archive so far: its entries, the latest first, the names taken, and whether it failed.
pub record Archive : Type 0 where
  pub entries : List String
  pub taken : List String
  pub failed : Bool

module _ (lib : Library) where
  abbrev pub is_separator : Char → Bool
  is_separator c = eqb (code c) 47 || eqb (code c) 92

  abbrev pub is_dropped : Char → Bool
  is_dropped c = eqb (code c) 34 || lib.is_control c

  -- `strings.Map` with the function of `SafeFileName`
  unfoldable pub map_name : String → String
  map_name String.[] = String.[]
  map_name (String.◌∷◌ c s) =
      let rest = map_name s in
      if is_separator c
      then String.◌++◌ "_" rest
      else if is_dropped c
      then rest
      else String.◌∷◌ c rest

  -- `SafeFileName`
  unfoldable pub safe_file_name : String → String
  unfolding map_name only_dots
  safe_file_name name =
      let safe = lib.trim_space (map_name name) in if only_dots safe then "file" else safe

  abbrev pub numbered : String → String → ℕ → String
  numbered base ext n =
      String.◌++◌ base (String.◌++◌ " (" (String.◌++◌ (lib.itoa n) (String.◌++◌ ")" ext)))

  -- The loop of `uniqueEntryName`, for at most so many rounds.
  unfoldable pub find_name : ℕ → List String → String → String → ℕ → String → Option String
  find_name zero taken base ext n candidate = none
  find_name (suc rounds) taken base ext n candidate =
      if contains taken (lib.to_lower candidate)
      then find_name rounds taken base ext (n + 1) (numbered base ext n)
      else some candidate

  abbrev pub search_name : List String → String → Option String
  search_name taken name =
      find_name (suc (suc (length taken))) taken (lib.trim_suffix name (lib.ext name))
        (lib.ext name) 2 name

  abbrev pub found_name : String → Option String → String
  found_name name none = name
  found_name name (some candidate) = candidate

  -- `uniqueEntryName`; its caller adds the lower-case form to what is taken
  unfoldable pub unique_entry_name : List String → String → String
  unfolding find_name
  unique_entry_name taken name = found_name name (search_name taken name)

  abbrev pub add_entry : Files → String → Archive → Archive
  add_entry files name a =
      let entry = unique_entry_name a.taken (safe_file_name name) in
      if not (files.takes entry)
      then record a { failed = true }
      else record a { entries = entry ∷ a.entries; taken = lib.to_lower entry ∷ a.taken }

  -- The name under a watermark's type.
  abbrev pub stamped_name : FileRecord → String → String
  stamped_name rec ext =
      String.◌++◌ (lib.trim_suffix (file_download_name rec) (lib.ext (file_download_name rec))) ext

  -- One file: a file that cannot be opened, or not stamped where it has to be, is left out.
  abbrev pub write_file : Files → Bool → FileRecord → Archive → Archive
  write_file files stamped rec a =
      if stamped
      then (elim (files.stamps rec) [
        | none ↦ a
        | some ext ↦ add_entry files (stamped_name rec ext) a
      ])
      else if not (files.opens rec)
      then a
      else add_entry files (file_download_name rec) a

  -- The loop of `WriteLinkArchive`, which a failure ends.
  unfoldable pub write_files : Files → Bool → List FileRecord → Archive → Archive
  unfolding unique_entry_name safe_file_name
  write_files files stamped [] a = a
  write_files files stamped (rec ∷ recs) a =
      if a.failed then a else write_files files stamped recs (write_file files stamped rec a)

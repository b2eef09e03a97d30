-- ===== src/Vault/Drawers.antt =====
-- The links and sections that show a record, and taking it off them: services/sealed.go.
use revoked.Prelude.{
  ℕ, String, Bool, not, ◌&&◌, ◌||◌, Option, List, [], ◌∷◌, ◌==◌, any, keep, contains, map,
  if◌then◌else◌, length,
}
use revoked.Links.{status_active, status_paused}
use revoked.Vault.Records.{VaultRecord}

-- A link, as far as sealing reads and writes it.
pub record LinkRow : Type 0 where
  pub status : String
  pub records : List String
  pub sections : List String
  pub grants : List (String × String)
  pub snapshot : List (String × String)

pub record SectionRow : Type 0 where
  pub id : String
  pub records : List String

-- What a transaction reads: the record, the ids of its aliases, and the links and sections.
pub record Drawer : Type 0 where
  pub row : Option VaultRecord
  pub aliases : List String
  pub links : List LinkRow
  pub sections : List SectionRow

abbrev pub is_open : LinkRow → Bool
is_open l = l.status == status_active || l.status == status_paused

abbrev pub reads_section : String → List SectionRow → LinkRow → Bool
reads_section id sections l =
    any (λ (s : SectionRow). contains s.records id && contains l.sections s.id) sections

abbrev pub shows : List SectionRow → LinkRow → String → Bool
shows sections l id = contains l.records id || reads_section id sections l

-- `LiveLinksReading`: a filter `~` on ids finds the rows that list the id.
unfoldable pub live_links_reading : String → Drawer → ℕ
live_links_reading id d =
    length (keep (λ l. is_open l && any (shows d.sections l) (id ∷ d.aliases)) d.links)

-- Whether a datum of the snapshot was granted from the record.
abbrev pub is_grant_of : String → List (String × String) → (String × String) → Bool
is_grant_of id grants datum = any (λ (g : String × String). g.0 == datum.0 && g.1 == id) grants

abbrev pub detach_link : String → LinkRow → LinkRow
detach_link id l = if not (contains l.records id) then l else record l {
  records = keep (λ r. not (r == id)) l.records;
  grants = keep (λ g. not (g.1 == id)) l.grants;
  snapshot = keep (λ datum. not (is_grant_of id l.grants datum)) l.snapshot;
}

unfoldable pub detach_all : List String → List LinkRow → List LinkRow
detach_all [] links = links
detach_all (id ∷ ids) links = detach_all ids (map (detach_link id) links)

-- `DetachSealedRecord`
unfoldable pub detach_sealed_record : String → Drawer → Drawer
unfolding detach_all
detach_sealed_record id d = record d { links = detach_all (id ∷ d.aliases) d.links }

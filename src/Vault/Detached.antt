-- ===== src/Vault/Detached.antt =====
-- What sealing a record does to the links that show it (services/sealed.go, routes/sealed.go).
use revoked.Prelude.{
  ◌≡◌, refl, sym, subst, String, Bool, true, false, not, List, [], ◌∷◌, ◌==◌, all, contains, keep,
  map, arith, allowed,
}
use revoked.Vault.{Keys}
use revoked.Vault.Records.{VaultRecord, is_sealed}
use revoked.Vault.Drawers.{LinkRow, Drawer, detach_link, detach_all, detach_sealed_record}
use revoked.Vault.Sealing.{SealedWrite, write_row}

-- No link lists the record.
abbrev pub is_unlisted : List LinkRow → String → Bool
is_unlisted links id = all (λ (l : LinkRow). not (contains l.records id)) links

contains-keep :
    (xs : List String) (id : String) → contains (keep (λ r. not (r == id)) xs) id ≡ false
contains-keep [] id = refl
contains-keep (x ∷ xs) id = ground (arith, contains-keep xs id)

contains-keep_other :
    (xs : List String) (id other : String)
    → contains xs other ≡ false
    → contains (keep (λ r. not (r == id)) xs) other ≡ false
contains-keep_other [] id other h = refl
contains-keep_other (x ∷ xs) id other h = ground (arith, contains-keep_other xs id other)

detach_link-drops : (id : String) (l : LinkRow) → contains (detach_link id l).records id ≡ false
detach_link-drops id l = ground (arith, contains-keep l.records id)

detach_link-keeps :
    (id other : String) (l : LinkRow)
    → contains l.records other ≡ false
    → contains (detach_link id l).records other ≡ false
detach_link-keeps id other l h = ground (arith, contains-keep_other l.records id other h)

unlisted-drops : (id : String) (ls : List LinkRow) → is_unlisted (map (detach_link id) ls) id ≡ true
unlisted-drops id [] = refl
unlisted-drops id (l ∷ ls) = rw (detach_link-drops id l) (unlisted-drops id ls)

unlisted-keeps :
    (id other : String) (ls : List LinkRow)
    → is_unlisted ls other ≡ true
    → is_unlisted (map (detach_link id) ls) other ≡ true
unlisted-keeps id other [] h = refl
unlisted-keeps id other (l ∷ ls) h =
    ground (arith, detach_link-keeps id other l, unlisted-keeps id other ls)

detach_all-keeps :
    (ids : List String) (other : String) (ls : List LinkRow)
    → is_unlisted ls other ≡ true
    → is_unlisted (detach_all ids ls) other ≡ true
unfolding detach_all
detach_all-keeps [] other ls h = h
detach_all-keeps (id ∷ ids) other ls h =
    detach_all-keeps ids other (map (detach_link id) ls) (unlisted-keeps id other ls h)

detach_all-drops :
    (ids : List String) (ls : List LinkRow) → all (is_unlisted (detach_all ids ls)) ids ≡ true
unfolding detach_all
detach_all-drops [] ls = refl
detach_all-drops (id ∷ ids) ls =
    rw (detach_all-keeps ids id (map (detach_link id) ls) (unlisted-drops id ls))
      (detach_all-drops ids (map (detach_link id) ls))

write_row-links :
    (saves : VaultRecord → Bool) (k : Keys) (user : String) (body : SealedWrite) (rec : VaultRecord)
    (d : Drawer) {d' : Drawer}
    → write_row saves k user body rec d ≡ allowed d'
    → is_sealed rec ≡ false
    → d'.links ≡ detach_all (rec.id ∷ d.aliases) d.links
unfolding write_row detach_sealed_record
write_row-links saves k user body rec d h plain = ground arith

-- Once a plain record is sealed, no link lists it or one of its aliases any more, so that unsealing
-- it shares it with nobody through a list of records.
pub sealed_is_unlisted :
    (saves : VaultRecord → Bool) (k : Keys) (user : String) (body : SealedWrite) (rec : VaultRecord)
    (d : Drawer) {d' : Drawer}
    → write_row saves k user body rec d ≡ allowed d'
    → is_sealed rec ≡ false
    → all (is_unlisted d'.links) (rec.id ∷ d.aliases) ≡ true
unfolding write_row detach_sealed_record
sealed_is_unlisted saves k user body rec d {d'} h plain =
    subst (λ (links : List LinkRow). all (is_unlisted links) (rec.id ∷ d.aliases) ≡ true)
      (sym (write_row-links saves k user body rec d {d' = d'} h plain))
      (detach_all-drops (rec.id ∷ d.aliases) d.links)

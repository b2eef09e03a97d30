-- ===== src/Vault/Versions.antt =====
-- The history of a record that may be sealed, with writers that loaded it at any earlier time
-- (routes/sealed.go, hooks/sealed.go).
use mathlib.Core.List.{Memᴰ}
use mathlib.Core.List.Memᴰ.{head, tail}
use revoked.Prelude.{
  ℕ, ◌+◌, ◌<◌, ◌≤◌, ◌≡◌, refl, sym, ap, subst, ◌∙◌, String, Bool, true, false, some, List, [], ◌∷◌,
  ◌==◌, eq_iff, eqb, arith, refused, allowed,
}
use revoked.Sealed.Chain.{Crypto}
use revoked.Vault.{Keys, sealed_version_conflict}
use revoked.Vault.Handover.{Codec}
use revoked.Vault.Records.{
  VaultRecord, Seal, is_sealed, same_seal, apply_sealed, update_hooks, update_request, api_update,
  refuse_stale_record_write, type_file,
}
use revoked.Vault.Drawers.{Drawer, detach_sealed_record}
use revoked.Vault.Sealing.{SealedWrite, UnsealRequest, write_row, unseal_row}

seals_equal : (s t : Seal) → same_seal s t ≡ true → s ≡ t
seals_equal s t h =
    ground (arith, eq_iff s.sealed_value t.sealed_value, eq_iff s.key_wrap t.key_wrap)

write_row-version :
    (saves : VaultRecord → Bool) (k : Keys) (user : String) (body : SealedWrite) (rec : VaultRecord)
    (d : Drawer) {d' : Drawer} {rec' : VaultRecord}
    → write_row saves k user body rec d ≡ allowed d'
    → d'.row ≡ some rec'
    → rec'.seal.version ≡ rec.seal.version + 1
unfolding write_row apply_sealed detach_sealed_record
write_row-version saves k user body rec d h at = ground arith

unseal_row-version :
    (codec : Codec) (crypto : Crypto) (saves : VaultRecord → Bool) (k : Keys) (user : String)
    (body : UnsealRequest) (rec : VaultRecord) (d : Drawer) {d' : Drawer} {rec' : VaultRecord}
    → unseal_row codec crypto saves k user body rec d ≡ allowed d'
    → d'.row ≡ some rec'
    → rec'.seal.version ≡ rec.seal.version + 1
unfolding unseal_row
unseal_row-version codec crypto saves k user body rec d h at = ground arith

conflict : (m n : ℕ) → n < m → eqb m n ≡ false
conflict m n h = ground arith

-- What a later state keeps of an earlier one: the version never falls, and at the same version the
-- seal is the same, and, where it is sealed, so is the key that the ciphertext is bound to.
abbrev pub Follows : VaultRecord → VaultRecord → Type 0
Follows p now =
    (p.seal.version ≤ now.seal.version)
    × (p.seal.version ≡ now.seal.version
        → (p.seal ≡ now.seal) × (is_sealed now ≡ true → p.key ≡ now.key))

-- The states that a record was in, the newest first, and the one it is in. The collection API saves
-- what was made of any of them, and the routes what their transaction read.
pub data History : List VaultRecord → VaultRecord → Type 0 where
  begun : (rec : VaultRecord) → History [] rec
  wrote :
      {past : List VaultRecord} {rec rec' : VaultRecord}
      → History past rec
      → (saves : VaultRecord → Bool) (k : Keys) (user : String) (body : SealedWrite) (d d' : Drawer)
      → write_row saves k user body rec d ≡ allowed d'
      → d'.row ≡ some rec'
      → History (rec ∷ past) rec'
  opened :
      {past : List VaultRecord} {rec rec' : VaultRecord}
      → History past rec
      → (codec : Codec) (crypto : Crypto) (saves : VaultRecord → Bool) (k : Keys) (user : String)
        (body : UnsealRequest) (d d' : Drawer)
      → unseal_row codec crypto saves k user body rec d ≡ allowed d'
      → d'.row ≡ some rec'
      → History (rec ∷ past) rec'
  edited :
      {past : List VaultRecord} {rec rec' : VaultRecord}
      → History past rec
      → (saves : VaultRecord → Bool) (original next : VaultRecord) → Memᴰ original (rec ∷ past)
      → api_update saves rec original next ≡ some rec'
      → History (rec ∷ past) rec'

Follows-refl : (r : VaultRecord) → Follows r r
Follows-refl r = (omega arith, λ _. (refl, λ _. refl))

Follows-risen :
    (p rec rec' : VaultRecord)
    → Follows p rec
    → rec'.seal.version ≡ rec.seal.version + 1
    → Follows p rec'
Follows-risen p rec rec' (le, same) up = (omega arith, λ equal. ground arith)

edit_version :
    (saves : VaultRecord → Bool) (rec original next : VaultRecord) {rec' : VaultRecord}
    → api_update saves rec original next ≡ some rec'
    → original.seal.version ≡ rec.seal.version
unfolding api_update update_hooks refuse_stale_record_write
edit_version saves rec original next h = ground arith

edit_seal :
    (saves : VaultRecord → Bool) (rec original next : VaultRecord) {rec' : VaultRecord}
    → api_update saves rec original next ≡ some rec'
    → rec'.seal ≡ original.seal
unfolding api_update update_request
edit_seal saves rec original next {rec'} h = seals_equal rec'.seal original.seal (ground arith)

edit_key :
    (saves : VaultRecord → Bool) (rec original next : VaultRecord) {rec' : VaultRecord}
    → api_update saves rec original next ≡ some rec'
    → is_sealed original ≡ true
    → rec'.key ≡ original.key
unfolding api_update update_request
edit_key saves rec original next {rec'} h sealed = (eq_iff rec'.key original.key).0 (ground arith)

-- A state that follows what a writer loaded, and whose version is still the loaded one, has the
-- loaded seal.
Follows-edited :
    (saves : VaultRecord → Bool) (p rec original next : VaultRecord) {rec' : VaultRecord}
    → Follows p rec
    → Follows original rec
    → api_update saves rec original next ≡ some rec'
    → Follows p rec'
Follows-edited saves p rec original next {rec'} (below, same) (_, as_loaded) h =
    let version = edit_version saves rec original next {rec' = rec'} h in
    let seal = edit_seal saves rec original next {rec' = rec'} h in
    let (loaded_seal, loaded_key) = as_loaded version in
    let now_seal = seal ∙ loaded_seal in
    (
      subst (λ (s : Seal). p.seal.version ≤ s.version) (sym now_seal) below,
      λ equal.
          let (kept_seal, kept_key) = same (equal ∙ ap (λ (s : Seal). s.version) now_seal) in
          (
            kept_seal ∙ sym now_seal,
            λ sealed.
                let was = subst (λ (s : Seal). s.sealed ≡ true) now_seal sealed in
                let first = subst (λ (s : Seal). s.sealed ≡ true) seal sealed in
                kept_key was
                ∙ sym (loaded_key was)
                ∙ sym (edit_key saves rec original next {rec' = rec'} h first),
          ),
    )

versions_keep_seals :
    {past : List VaultRecord} {now : VaultRecord} (p : VaultRecord)
    → History past now
    → Memᴰ p (now ∷ past)
    → Follows p now
versions_keep_seals {now = now} p h (head itself) =
    subst (λ (q : VaultRecord). Follows q now) (sym itself) (Follows-refl now)
versions_keep_seals p (begun rec) (tail among) = elim among [ ]
versions_keep_seals p (wrote {rec = rec} {rec' = rec'} h saves k user body d d' answer at)
      (tail among) =
    Follows-risen p rec rec' (versions_keep_seals p h among)
      (write_row-version saves k user body rec d {d' = d'} {rec' = rec'} answer at)
versions_keep_seals p
      (opened {rec = rec} {rec' = rec'} h codec crypto saves k user body d d' answer at)
      (tail among) =
    Follows-risen p rec rec' (versions_keep_seals p h among)
      (unseal_row-version codec crypto saves k user body rec d {d' = d'} {rec' = rec'} answer at)
versions_keep_seals p (edited {rec = rec} {rec' = rec'} h saves original next loaded answer)
      (tail among) =
    Follows-edited saves p rec original next {rec' = rec'} (versions_keep_seals p h among)
      (versions_keep_seals original h loaded) answer

-- A write that expects a version below that of any state the record was in is refused: of two
-- devices that save over the same version, the second is told so.
pub stale_write_refused :
    {past : List VaultRecord} {now : VaultRecord} (p : VaultRecord) (saves : VaultRecord → Bool)
    (k : Keys) (user : String) (body : SealedWrite) (d : Drawer)
    → History past now
    → Memᴰ p (now ∷ past)
    → body.expected_version < p.seal.version
    → (now.type == type_file) ≡ false
    → (now.alias_of == "") ≡ true
    → write_row saves k user body now d ≡ refused sealed_version_conflict
unfolding write_row
stale_write_refused {now = now} p saves k user body d h among stale text_like itself =
    let (below, _) = versions_keep_seals p h among in
    rw (write_row, text_like, itself, conflict now.seal.version body.expected_version (omega arith))
      refl

-- In every history of a record, whatever its writers loaded and whenever they save it, the version
-- of an earlier state is not above that of the newest.
pub versions_rise :
    {past : List VaultRecord} {now : VaultRecord} (p : VaultRecord)
    → History past now
    → Memᴰ p (now ∷ past)
    → p.seal.version ≤ now.seal.version
versions_rise p h among = (versions_keep_seals p h among).0

-- In every history of a record, an earlier state of the same version has the same seal: whether it
-- is sealed, the ciphertext, and the key that it is under.
pub version_fixes_seal :
    {past : List VaultRecord} {now : VaultRecord} (p : VaultRecord)
    → History past now
    → Memᴰ p (now ∷ past)
    → p.seal.version ≡ now.seal.version
    → p.seal ≡ now.seal
version_fixes_seal p h among equal = ((versions_keep_seals p h among).1 equal).0

-- Where a record is sealed, an update of the collection API that is accepted, made of whichever
-- earlier state, leaves its seal as it is now, its value empty, and its key, which the ciphertext
-- is bound to, what it is now.
pub api_update-keeps_sealed :
    {past : List VaultRecord} {now : VaultRecord} (original next : VaultRecord)
    (saves : VaultRecord → Bool) {rec' : VaultRecord}
    → History past now
    → Memᴰ original (now ∷ past)
    → api_update saves now original next ≡ some rec'
    → is_sealed now ≡ true
    → (rec'.seal ≡ now.seal) × (rec'.value ≡ "") × (rec'.key ≡ now.key)
unfolding api_update update_request
api_update-keeps_sealed {now = now} original next saves {rec'} h among answer sealed =
    let (_, as_loaded) = versions_keep_seals original h among in
    let (loaded_seal, loaded_key) =
      as_loaded (edit_version saves now original next {rec' = rec'} answer) in
    let seal = edit_seal saves now original next {rec' = rec'} answer in
    let first = subst (λ (s : Seal). s.sealed ≡ true) (sym loaded_seal) sealed in
    (
      seal ∙ loaded_seal,
      (eq_iff rec'.value "").0 (ground (arith, first)),
      edit_key saves now original next {rec' = rec'} answer first ∙ loaded_key sealed,
    )

-- ===== src/Vault/Writers.antt =====
-- Who may write or open a sealed record (routes/sealed.go).
use revoked.Prelude.{
  ℕ, ◌+◌, ◌<◌, ◌≡◌, refl, sym, ap, subst, ◌∙◌, String, Bool, true, false, not, Option, none, some,
  List, ◌∷◌, ◌==◌, eq_iff, any, arith, Option-cases, inl, inr, allowed, past_guard, past_check,
  past_lookup,
}
use text.Mathlib.Text.{starts_with}
use revoked.Sealed.Chain.{Crypto, is_live}
use revoked.Members.{Member}
use revoked.Access.{UserRecord}
use revoked.Vault.{
  KeyEpoch, Keys, check_sealed_write, current_epoch, holds_key, revoke_sealed_access, is_users,
  sealed_invalid, record_not_found, has_copy,
}
use revoked.Vault.Handover.{
  Codec, Directory, SealedWrap, save_sealed_wrap, account_scope, own_copy, check_wrap_signature,
}
use revoked.Vault.Requests.{may_start}
use revoked.Vault.Records.{VaultRecord, valid_payload}
use revoked.Vault.Drawers.{Drawer}
use revoked.Vault.Sealing.{
  SealedWrite, UnsealRequest, write_row, unseal_row, signed_unseal, write_sealed_record,
  authorize_sealed_update,
}
use revoked.Vault.Epochs.{current-has_epoch}
use revoked.Vault.Runs.{Event, run, keeps_key}
use revoked.Vault.Removal.{revoked_member_key_unused}

-- A write that passes is under the newest key, which is not due, by somebody who was handed it.
check_sealed_write-passes :
    (k : Keys) (workspace user : String) (n : ℕ)
    → check_sealed_write k workspace user n ≡ none
    → (c : KeyEpoch) × (current_epoch k.epochs workspace ≡ some c)
      × (c.rotation_due ≡ false)
      × (holds_key k.wraps workspace user c.epoch ≡ true)
      × (n ≡ c.epoch)
unfolding check_sealed_write
check_sealed_write-passes k workspace user n passes =
    elim (Option-cases (current_epoch k.epochs workspace)) [
      | inl nothing ↦ ground (arith, nothing)
      | inr (c, newest) ↦
          (c, newest, ground (arith, newest), ground (arith, newest), ground (arith, newest))
    ]

write_row-checked :
    (saves : VaultRecord → Bool) (k : Keys) (user : String) (body : SealedWrite) (rec : VaultRecord)
    (d : Drawer) {d' : Drawer}
    → write_row saves k user body rec d ≡ allowed d'
    → check_sealed_write k rec.workspace user body.payload.key_epoch ≡ none
unfolding write_row
write_row-checked saves k user body rec d h = ground arith

write_row-expected :
    (saves : VaultRecord → Bool) (k : Keys) (user : String) (body : SealedWrite) (rec : VaultRecord)
    (d : Drawer) {d' : Drawer}
    → write_row saves k user body rec d ≡ allowed d'
    → rec.seal.version ≡ body.expected_version
unfolding write_row
write_row-expected saves k user body rec d h = ground arith

module _ (codec : Codec) (crypto : Crypto) (find_member : String → String → Option Member)
    (saves : VaultRecord → Bool) where
  write_checked :
      (k : Keys) (u : UserRecord) (body : SealedWrite) (first : Option VaultRecord) (d : Drawer)
      {d' : Drawer}
      → write_sealed_record codec crypto find_member saves k u body first d ≡ allowed d'
      → (rec : VaultRecord) × (d.row ≡ some rec)
        × (check_sealed_write k rec.workspace u.id body.payload.key_epoch ≡ none)
        × (rec.seal.version ≡ body.expected_version)
  unfolding write_sealed_record write_row
  write_checked k u body first d h =
      let (_, h) = past_guard (not (valid_payload codec body.payload)) sealed_invalid _ h in
      let (seen, _, h) = past_lookup first record_not_found _ h in
      let (_, h) = past_check (authorize_sealed_update find_member u seen) _ h in
      let (rec, there, h) =
        past_lookup d.row record_not_found (λ r. write_row saves k u.id body r d) h in
      (
        rec,
        there,
        write_row-checked saves k u.id body rec d h,
        write_row-expected saves k u.id body rec d h,
      )

same_some {ℓ} : {A : Type ℓ} {a b : A} → some a ≡ some b → a ≡ b
same_some h = cc

-- After a member who held a workspace's key is removed, and after whatever further requests to the
-- keys, as long as none of them is a reset by the last person who was handed the workspace's key,
-- `writeSealedRecord` accepts a value for a record of the workspace, by whomever, only under a key
-- that is newer than the one that was current at the removal.
pub removed_key_seals_nothing :
    (codec : Codec) (crypto : Crypto) (find_member : String → String → Option Member)
    (saves : VaultRecord → Bool) (k : Keys) (removed workspace : String) (current : KeyEpoch)
    (later : List Event) (u : UserRecord) (body : SealedWrite) (first : Option VaultRecord)
    (d : Drawer) (rec : VaultRecord) {d' : Drawer}
    → current_epoch k.epochs workspace ≡ some current
    → any (is_users workspace removed) k.wraps ≡ true
    → keeps_key codec crypto workspace later (revoke_sealed_access removed workspace k) ≡ true
    → d.row ≡ some rec
    → rec.workspace ≡ workspace
    → write_sealed_record codec crypto find_member saves
        (run codec crypto later (revoke_sealed_access removed workspace k))
        u
        body
        first
        d
      ≡ allowed d'
    → current.epoch < body.payload.key_epoch
removed_key_seals_nothing codec crypto find_member saves k removed workspace current later u body
      first d rec newest held kept at its h =
    let k' = run codec crypto later (revoke_sealed_access removed workspace k) in
    let (r, there, checked, _) = write_checked codec crypto find_member saves k' u body first d h in
    revoked_member_key_unused codec crypto k removed workspace current later u.id
      body.payload.key_epoch newest held kept
      (subst (λ (w : String). check_sealed_write k' w u.id body.payload.key_epoch ≡ none)
        (ap (λ (v : VaultRecord). v.workspace) (same_some (sym there ∙ at)) ∙ its) checked)

-- `unsealRecord` shows a value in plaintext only if a device that is live on the caller's own list
-- signed that value, for this record at this version, and the caller was handed the newest key of
-- its workspace.
pub unsealed_by_device :
    (codec : Codec) (crypto : Crypto) (saves : VaultRecord → Bool) (k : Keys) (user : String)
    (body : UnsealRequest) (rec : VaultRecord) (d : Drawer) {d' : Drawer}
    → unseal_row codec crypto saves k user body rec d ≡ allowed d'
    → (is_live (k.chains user) body.device_seq ≡ true)
      × (signed_unseal codec crypto k user rec.id body ≡ true)
      × (rec.seal.version ≡ body.expected_version)
unfolding unseal_row
unsealed_by_device codec crypto saves k user body rec d h =
    (ground arith, ground arith, ground arith)

-- A member may hand a copy of the newest key to a device of their own, which alone signs it,
-- whether or not they were ever handed that key; writes and a new key are then accepted from them.
pub own_wrap_makes_holder :
    (codec : Codec) (crypto : Crypto) (dir : Directory) (user : String) (member : Member)
    (w : SealedWrap) (k : Keys) (c : KeyEpoch) (prior_wrap : String)
    → dir.member_of w.workspace user ≡ some member
    → (w.workspace == account_scope user) ≡ false
    → starts_with w.workspace (account_scope "") ≡ false
    → check_wrap_signature codec crypto w (k.chains user) ≡ true
    → current_epoch k.epochs w.workspace ≡ some c
    → c.rotation_due ≡ false
    → w.epoch ≡ c.epoch
    → has_copy k.wraps w.workspace w.epoch user w.device_seq ≡ false
    → (prior_wrap == "") ≡ false
    → (k' : Keys) × (save_sealed_wrap codec crypto dir user w (k.chains user) k ≡ allowed k')
      × (check_sealed_write k' w.workspace user w.epoch ≡ none)
      × (may_start k' member user w.workspace (w.epoch + 1) prior_wrap ≡ none)
unfolding save_sealed_wrap check_sealed_write
own_wrap_makes_holder codec crypto dir user member w k c prior_wrap belongs other plain signed
      newest fresh same first prior =
    let known = current-has_epoch k.epochs w.workspace {c = c} newest in
    let kept = record k { wraps = own_copy w.workspace user w ∷ k.wraps } in
    let itself = (eq_iff w.workspace w.workspace).1 refl in
    let himself = (eq_iff user user).1 refl in
    (
      kept,
      rw (save_sealed_wrap, other, plain, belongs, signed, same, known, ← same, first) refl,
      rw (check_sealed_write, newest) (ground (arith, fresh, same, itself, himself)),
      rw (may_start, newest) (ground (arith, same, itself, himself, prior)),
    )

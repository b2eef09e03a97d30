-- ===== src/Vault/Steps.antt =====
-- What each request does to the keys of a workspace (routes/sealed.go).
use revoked.Prelude.{
  ℕ, ◌+◌, ◌≡◌, String, true, not, ◌||◌, none, List, ◌∷◌, eqb, ltb, map, all, arith, length, allowed,
  allowed_parts, past_guard, past_check, past_lookup,
}
use revoked.Sealed.Chain.{Crypto, live}
use revoked.Members.{Member}
use revoked.Vault.{Keys, sealed_invalid, workspace_not_found}
use revoked.Vault.Handover.{
  SealedWrap, SealedGrant, Codec, Directory, save_sealed_wraps, save_sealed_grants,
  max_sealed_wraps, max_sealed_entries, decodes, account_scope,
}
use revoked.Vault.Requests.{
  SealedEntry, valid_sealed_entry, append_devices, append_sealed_devices, start_account_epoch,
  grant_sealed_access, start_sealed_epoch, new_epoch, may_start, addressed, is_covered,
}
use revoked.Vault.Life.{KeyLife, key_state, new_epoch-life}
use revoked.Vault.Rotation.{
  append_devices-life, save_sealed_wraps-epochs, save_account_wraps-epochs,
  save_sealed_grants-epochs,
}

module _ (codec : Codec) (crypto : Crypto) where
  -- The steps of a start that was allowed.
  pub start_parts :
      (dir : Directory) (user workspace : String) (epoch : ℕ) (prior_wrap : String)
      (wraps : List SealedWrap) (grants : List SealedGrant) (k : Keys) {k' : Keys}
      → start_sealed_epoch codec crypto dir user workspace epoch prior_wrap wraps grants k
        ≡ allowed k'
      → (member : Member) × (may_start k member user workspace epoch prior_wrap ≡ none)
        × (all (is_covered wraps) (live (k.chains user)) ≡ true)
        × (m : Keys) × (save_sealed_wraps codec crypto dir user
              (map (addressed workspace epoch) wraps)
              (k.chains user)
              (record k { epochs = new_epoch workspace epoch prior_wrap user ∷ k.epochs })
            ≡ allowed m)
        × (save_sealed_grants codec crypto dir user workspace epoch grants (m.chains user) m
            ≡ allowed k')
  unfolding start_sealed_epoch
  start_parts dir user workspace epoch prior_wrap wraps grants k h =
      let save = λ (m : Keys).
        save_sealed_grants codec crypto dir user workspace epoch grants (m.chains user) m in
      let (_, h) =
        past_guard
          (ltb epoch 1
            || eqb (length wraps) 0
            || ltb max_sealed_wraps (length wraps + length grants))
          sealed_invalid _ h in
      let (_, h) = past_guard (not (decodes codec prior_wrap)) sealed_invalid _ h in
      let (member, found, h) = past_lookup (dir.member_of workspace user) workspace_not_found _ h in
      let (may, h) = past_check (may_start k member user workspace epoch prior_wrap) _ h in
      let (covered, h) =
        past_guard (not (all (is_covered wraps) (live (k.chains user)))) sealed_invalid _ h in
      let (m, saved, granted) = allowed_parts _ save h in
      (member, may, ground (arith, covered), m, saved, granted)

  pub start_sealed_epoch-life :
      (dir : Directory) (user workspace : String) (epoch : ℕ) (prior_wrap : String)
      (wraps : List SealedWrap) (grants : List SealedGrant) (k : Keys) (scope : String) {k' : Keys}
      → start_sealed_epoch codec crypto dir user workspace epoch prior_wrap wraps grants k
        ≡ allowed k'
      → KeyLife (key_state k.epochs scope) (key_state k'.epochs scope)
  start_sealed_epoch-life dir user workspace epoch prior_wrap wraps grants k scope {k'} h =
      let (member, may, _, m, saved, granted) =
        start_parts dir user workspace epoch prior_wrap wraps grants k {k' = k'} h in
      let begun =
        save_sealed_wraps-epochs codec crypto dir user (map (addressed workspace epoch) wraps)
          (k.chains user)
          (record k { epochs = new_epoch workspace epoch prior_wrap user ∷ k.epochs }) {k' = m}
          saved in
      let ended =
        save_sealed_grants-epochs codec crypto dir user workspace epoch grants (m.chains user) m
          {k' = k'} granted in
      rw (ended, begun) (new_epoch-life k member user workspace epoch prior_wrap scope may)

  -- The keys of a list that was changed are as its entries leave them.
  pub append_sealed_devices-parts :
      (dir : Directory) (user : String) (entries : List SealedEntry) (wraps : List SealedWrap)
      (k : Keys) {k' : Keys}
      → append_sealed_devices codec crypto dir user entries wraps k ≡ allowed k'
      → (m : Keys) × (append_devices codec crypto user entries k ≡ allowed m)
        × (k'.epochs ≡ m.epochs)
  unfolding append_sealed_devices
  append_sealed_devices-parts dir user entries wraps k {k'} h =
      let save = λ (m : Keys). save_sealed_wraps codec crypto dir user wraps (m.chains user) m in
      let (_, h) =
        past_guard
          (eqb (length entries) 0
            || ltb max_sealed_entries (length entries)
            || ltb max_sealed_wraps (length wraps))
          sealed_invalid _ h in
      let (_, h) =
        past_guard (not (all (valid_sealed_entry codec crypto) entries)) sealed_invalid _ h in
      let (m, appended, saved) =
        allowed_parts (append_devices codec crypto user entries k) save h in
      (
        m,
        appended,
        save_sealed_wraps-epochs codec crypto dir user wraps (m.chains user) m {k' = k'} saved,
      )

  pub append_sealed_devices-life :
      (dir : Directory) (user : String) (entries : List SealedEntry) (wraps : List SealedWrap)
      (k : Keys) (scope : String) {k' : Keys}
      → append_sealed_devices codec crypto dir user entries wraps k ≡ allowed k'
      → KeyLife (key_state k.epochs scope) (key_state k'.epochs scope)
  append_sealed_devices-life dir user entries wraps k scope {k'} h =
      let (m, appended, kept) = append_sealed_devices-parts dir user entries wraps k {k' = k'} h in
      rw kept (append_devices-life codec crypto user entries k scope {k' = m} appended)

  pub start_account_epoch-epochs :
      (user : String) (epoch : ℕ) (prior_wrap : String) (wraps : List SealedWrap) (k : Keys)
      {k' : Keys}
      → start_account_epoch codec crypto user epoch prior_wrap wraps k ≡ allowed k'
      → k'.epochs ≡ k.epochs
  unfolding start_account_epoch
  start_account_epoch-epochs user epoch prior_wrap wraps k {k'} h = ground (
    arith,
    save_account_wraps-epochs codec crypto user (map (addressed (account_scope user) epoch) wraps)
        (k.chains user)
        (record k { account_epochs = new_epoch user epoch prior_wrap "" ∷ k.account_epochs })
        {k' = k'},
  )

  pub grant_sealed_access-epochs :
      (dir : Directory) (user workspace : String) (epoch : ℕ) (grants : List SealedGrant) (k : Keys)
      {k' : Keys}
      → grant_sealed_access codec crypto dir user workspace epoch grants k ≡ allowed k'
      → k'.epochs ≡ k.epochs
  unfolding grant_sealed_access
  grant_sealed_access-epochs dir user workspace epoch grants k {k'} h = ground (
    arith,
    save_sealed_grants-epochs codec crypto dir user workspace epoch grants (k.chains user) k
        {k' = k'},
  )

-- ===== src/Vault/Rotation.antt =====
-- After a key holder is removed, nothing is written under a key that they may have kept
-- (routes/sealed.go, services/sealed.go).
use revoked.Prelude.{
  ℕ, ◌≡◌, subst, ◌∙◌, String, List, [], ◌∷◌, keep, arith, Bool-cases, ◌⊎◌, inl, inr, allowed,
  allowed_parts, same_answer,
}
use revoked.Sealed.Chain.{SealedChain, Crypto, same, sealed_action_remove}
use revoked.Vault.{Keys, mark_all_due, withdraw_device_wraps, is_devices}
use revoked.Vault.Handover.{
  SealedWrap, SealedGrant, Codec, Directory, save_account_wrap, save_account_wraps,
  save_sealed_wrap, save_sealed_wraps, save_sealed_grant, save_grants, save_sealed_grants,
}
use revoked.Vault.Requests.{SealedEntry, append_device, append_devices}
use revoked.Vault.Life.{KeyLife, unchanged, followed, key_state, mark_all-life}

module _ (codec : Codec) (crypto : Crypto) where
  save_account_wrap-epochs :
      (user : String) (w : SealedWrap) (chain : SealedChain) (k : Keys) {k' : Keys}
      → save_account_wrap codec crypto user w chain k ≡ allowed k'
      → k'.epochs ≡ k.epochs
  unfolding save_account_wrap
  save_account_wrap-epochs user w chain k h = ground arith

  pub save_account_wraps-epochs :
      (user : String) (ws : List SealedWrap) (chain : SealedChain) (k : Keys) {k' : Keys}
      → save_account_wraps codec crypto user ws chain k ≡ allowed k'
      → k'.epochs ≡ k.epochs
  unfolding save_account_wraps
  save_account_wraps-epochs user [] chain k h = ground arith
  save_account_wraps-epochs user (w ∷ ws) chain k {k'} h =
      let (m, first, rest) = allowed_parts (save_account_wrap codec crypto user w chain k) _ h in
      save_account_wraps-epochs user ws chain m {k' = k'} rest
      ∙ save_account_wrap-epochs user w chain k {k' = m} first

  save_sealed_wrap-epochs :
      (dir : Directory) (user : String) (w : SealedWrap) (chain : SealedChain) (k : Keys)
      {k' : Keys}
      → save_sealed_wrap codec crypto dir user w chain k ≡ allowed k'
      → k'.epochs ≡ k.epochs
  unfolding save_sealed_wrap
  save_sealed_wrap-epochs dir user w chain k {k'} h =
      ground (arith, save_account_wrap-epochs user w chain k {k' = k'})

  pub save_sealed_wraps-epochs :
      (dir : Directory) (user : String) (ws : List SealedWrap) (chain : SealedChain) (k : Keys)
      {k' : Keys}
      → save_sealed_wraps codec crypto dir user ws chain k ≡ allowed k'
      → k'.epochs ≡ k.epochs
  unfolding save_sealed_wraps
  save_sealed_wraps-epochs dir user [] chain k h = ground arith
  save_sealed_wraps-epochs dir user (w ∷ ws) chain k {k'} h =
      let (m, first, rest) = allowed_parts (save_sealed_wrap codec crypto dir user w chain k) _ h in
      save_sealed_wraps-epochs dir user ws chain m {k' = k'} rest
      ∙ save_sealed_wrap-epochs dir user w chain k {k' = m} first

  save_sealed_grant-epochs :
      (dir : Directory) (granter workspace : String) (epoch : ℕ) (g : SealedGrant)
      (chain : SealedChain) (k : Keys) {k' : Keys}
      → save_sealed_grant codec crypto dir granter workspace epoch g chain k ≡ allowed k'
      → k'.epochs ≡ k.epochs
  unfolding save_sealed_grant
  save_sealed_grant-epochs dir granter workspace epoch g chain k h = ground arith

  save_grants-epochs :
      (dir : Directory) (granter workspace : String) (epoch : ℕ) (gs : List SealedGrant)
      (chain : SealedChain) (k : Keys) {k' : Keys}
      → save_grants codec crypto dir granter workspace epoch gs chain k ≡ allowed k'
      → k'.epochs ≡ k.epochs
  unfolding save_grants
  save_grants-epochs dir granter workspace epoch [] chain k h = ground arith
  save_grants-epochs dir granter workspace epoch (g ∷ gs) chain k {k'} h =
      let (m, first, rest) =
        allowed_parts (save_sealed_grant codec crypto dir granter workspace epoch g chain k) _ h in
      save_grants-epochs dir granter workspace epoch gs chain m {k' = k'} rest
      ∙ save_sealed_grant-epochs dir granter workspace epoch g chain k {k' = m} first

  pub save_sealed_grants-epochs :
      (dir : Directory) (granter workspace : String) (epoch : ℕ) (gs : List SealedGrant)
      (chain : SealedChain) (k : Keys) {k' : Keys}
      → save_sealed_grants codec crypto dir granter workspace epoch gs chain k ≡ allowed k'
      → k'.epochs ≡ k.epochs
  unfolding save_sealed_grants
  save_sealed_grants-epochs dir granter workspace epoch [] chain k h = ground arith
  save_sealed_grants-epochs dir granter workspace epoch (g ∷ gs) chain k {k'} h =
      ground (arith, save_grants-epochs dir granter workspace epoch (g ∷ gs) chain k {k' = k'})

  append_device-epochs :
      (user : String) (e : SealedEntry) (k : Keys) {k' : Keys}
      → append_device codec crypto user e k ≡ allowed k'
      → (k'.epochs ≡ k.epochs)
        ⊎ (k'.epochs ≡ mark_all_due (keep (is_devices user e.target_seq) k.wraps) k.epochs)
  unfolding append_device withdraw_device_wraps
  append_device-epochs user e k {k'} h = elim (Bool-cases (same e.action sealed_action_remove)) [
    | inl removes ↦ inr (ground (arith, removes))
    | inr adds ↦ inl (ground (arith, adds))
  ]

  append_device-life :
      (user : String) (e : SealedEntry) (k : Keys) (scope : String) {k' : Keys}
      → append_device codec crypto user e k ≡ allowed k'
      → KeyLife (key_state k.epochs scope) (key_state k'.epochs scope)
  unfolding append_device withdraw_device_wraps
  append_device-life user e k scope {k'} h = elim (append_device-epochs user e k {k' = k'} h) [
    | inl kept ↦ rw kept (unchanged (key_state k.epochs scope))
    | inr marked ↦
        rw marked (mark_all-life (keep (is_devices user e.target_seq) k.wraps) k.epochs scope)
  ]

  pub append_devices-life :
      (user : String) (es : List SealedEntry) (k : Keys) (scope : String) {k' : Keys}
      → append_devices codec crypto user es k ≡ allowed k'
      → KeyLife (key_state k.epochs scope) (key_state k'.epochs scope)
  unfolding append_devices
  append_devices-life user [] k scope {k'} h =
      subst (λ (l : Keys). KeyLife (key_state k.epochs scope) (key_state l.epochs scope))
        (same_answer h) (unchanged (key_state k.epochs scope))
  append_devices-life user (e ∷ es) k scope {k'} h =
      let (m, first, rest) = allowed_parts (append_device codec crypto user e k) _ h in
      followed (append_device-life user e k scope {k' = m} first)
        (append_devices-life user es m scope {k' = k'} rest)

-- ===== src/Vault/Covered.antt =====
-- Whom a new key reaches (routes/sealed.go).
use revoked.Prelude.{
  ℕ, ◌≡◌, refl, subst, String, Bool, true, false, List, [], ◌∷◌, ◌==◌, eq_iff, eqb, all, any, map,
  arith, Bool-cases, inl, inr, allowed, allowed_parts,
}
use revoked.Sealed.Chain.{SealedChain, Crypto, live}
use revoked.Vault.{Keys, has_copy}
use revoked.Vault.Handover.{
  SealedWrap, SealedGrant, Codec, Directory, save_sealed_wrap, save_sealed_wraps, save_sealed_grant,
  save_grants, save_sealed_grants, account_scope,
}
use revoked.Vault.Requests.{start_sealed_epoch, addressed, is_covered, new_epoch}
use revoked.Vault.Steps.{start_parts}

module _ (codec : Codec) (crypto : Crypto) (scope user : String) (epoch device : ℕ) where
  wrap-keeps :
      (dir : Directory) (owner : String) (w : SealedWrap) (chain : SealedChain) (k : Keys)
      {k' : Keys}
      → save_sealed_wrap codec crypto dir owner w chain k ≡ allowed k'
      → has_copy k.wraps scope epoch user device ≡ true
      → has_copy k'.wraps scope epoch user device ≡ true
  unfolding save_sealed_wrap has_copy
  wrap-keeps dir owner w chain k h held = ground arith

  wraps-keep :
      (dir : Directory) (owner : String) (ws : List SealedWrap) (chain : SealedChain) (k : Keys)
      {k' : Keys}
      → save_sealed_wraps codec crypto dir owner ws chain k ≡ allowed k'
      → has_copy k.wraps scope epoch user device ≡ true
      → has_copy k'.wraps scope epoch user device ≡ true
  unfolding save_sealed_wraps
  wraps-keep dir owner [] chain k h held = ground arith
  wraps-keep dir owner (w ∷ ws) chain k {k'} h held =
      let (m, first, rest) =
        allowed_parts (save_sealed_wrap codec crypto dir owner w chain k) _ h in
      wraps-keep dir owner ws chain m {k' = k'} rest
        (wrap-keeps dir owner w chain k {k' = m} first held)

  grant-keeps :
      (dir : Directory) (granter workspace : String) (n : ℕ) (g : SealedGrant) (chain : SealedChain)
      (k : Keys) {k' : Keys}
      → save_sealed_grant codec crypto dir granter workspace n g chain k ≡ allowed k'
      → has_copy k.wraps scope epoch user device ≡ true
      → has_copy k'.wraps scope epoch user device ≡ true
  unfolding save_sealed_grant has_copy
  grant-keeps dir granter workspace n g chain k h held = ground arith

  grants-keep :
      (dir : Directory) (granter workspace : String) (n : ℕ) (gs : List SealedGrant)
      (chain : SealedChain) (k : Keys) {k' : Keys}
      → save_grants codec crypto dir granter workspace n gs chain k ≡ allowed k'
      → has_copy k.wraps scope epoch user device ≡ true
      → has_copy k'.wraps scope epoch user device ≡ true
  unfolding save_grants
  grants-keep dir granter workspace n [] chain k h held = ground arith
  grants-keep dir granter workspace n (g ∷ gs) chain k {k'} h held =
      let (m, first, rest) =
        allowed_parts (save_sealed_grant codec crypto dir granter workspace n g chain k) _ h in
      grants-keep dir granter workspace n gs chain m {k' = k'} rest
        (grant-keeps dir granter workspace n g chain k {k' = m} first held)

  sealed_grants-keep :
      (dir : Directory) (granter workspace : String) (n : ℕ) (gs : List SealedGrant)
      (chain : SealedChain) (k : Keys) {k' : Keys}
      → save_sealed_grants codec crypto dir granter workspace n gs chain k ≡ allowed k'
      → has_copy k.wraps scope epoch user device ≡ true
      → has_copy k'.wraps scope epoch user device ≡ true
  unfolding save_sealed_grants
  sealed_grants-keep dir granter workspace n [] chain k h held = ground arith
  sealed_grants-keep dir granter workspace n (g ∷ gs) chain k {k'} h held =
      ground (arith, grants-keep dir granter workspace n (g ∷ gs) chain k {k' = k'}, held)

  wrap-reaches :
      (dir : Directory) (w : SealedWrap) (chain : SealedChain) (k : Keys) {k' : Keys}
      → (scope == account_scope user) ≡ false
      → save_sealed_wrap codec crypto dir user (addressed scope epoch w) chain k ≡ allowed k'
      → eqb w.device_seq device ≡ true
      → has_copy k'.wraps scope epoch user device ≡ true
  unfolding save_sealed_wrap has_copy
  wrap-reaches dir w chain k other h same =
      let itself = (eq_iff scope scope).1 refl in
      let himself = (eq_iff user user).1 refl in ground (arith, itself, himself)

  wraps-reach :
      (dir : Directory) (ws : List SealedWrap) (chain : SealedChain) (k : Keys) {k' : Keys}
      → (scope == account_scope user) ≡ false
      → save_sealed_wraps codec crypto dir user (map (addressed scope epoch) ws) chain k
        ≡ allowed k'
      → is_covered ws device ≡ true
      → has_copy k'.wraps scope epoch user device ≡ true
  unfolding save_sealed_wraps
  wraps-reach dir [] chain k other h covered = cc
  wraps-reach dir (w ∷ ws) chain k {k'} other h covered =
      let (m, first, rest) =
        allowed_parts (save_sealed_wrap codec crypto dir user (addressed scope epoch w) chain k) _
          h in
      elim (Bool-cases (eqb w.device_seq device)) [
        | inl same ↦
            wraps-keep dir user (map (addressed scope epoch) ws) chain m {k' = k'} rest
              (wrap-reaches dir w chain k {k' = m} other first same)
        | inr another ↦ wraps-reach dir ws chain m {k' = k'} other rest (ground (arith, another))
      ]

all-any :
    (p : ℕ → Bool) (xs : List ℕ) (n : ℕ) → all p xs ≡ true → any (eqb n) xs ≡ true → p n ≡ true
all-any p [] n every among = cc
all-any p (x ∷ xs) n every among = elim (Bool-cases (eqb n x)) [
  | inl same ↦
      let at : x ≡ n = ground (arith, same) in
      subst (λ (m : ℕ). p m ≡ true) at (ground (arith, every))
  | inr other ↦ all-any p xs n (ground (arith, every)) (ground (arith, among, other))
]

-- Whoever starts the first or the next key of a workspace is handed it on every device that is live
-- on their list, the recovery key included, if the workspace's id is not what names their account's
-- key.
pub start-covers :
    (codec : Codec) (crypto : Crypto) (dir : Directory) (user workspace : String) (epoch : ℕ)
    (prior_wrap : String) (wraps : List SealedWrap) (grants : List SealedGrant) (k : Keys)
    (device : ℕ) {k' : Keys}
    → (workspace == account_scope user) ≡ false
    → start_sealed_epoch codec crypto dir user workspace epoch prior_wrap wraps grants k
      ≡ allowed k'
    → any (eqb device) (live (k.chains user)) ≡ true
    → has_copy k'.wraps workspace epoch user device ≡ true
start-covers codec crypto dir user workspace epoch prior_wrap wraps grants k device {k'} other h
      among =
    let (member, _, covered, m, saved, granted) =
      start_parts codec crypto dir user workspace epoch prior_wrap wraps grants k {k' = k'} h in
    let reached =
      wraps-reach codec crypto workspace user epoch device dir wraps (k.chains user)
        (record k { epochs = new_epoch workspace epoch prior_wrap user ∷ k.epochs }) {k' = m} other
        saved (all-any (is_covered wraps) (live (k.chains user)) device covered among) in
    sealed_grants-keep codec crypto workspace user epoch device dir user workspace epoch grants
      (m.chains user) m {k' = k'} granted reached

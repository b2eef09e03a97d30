-- ===== src/Vault/Handover.antt =====
-- Handing over keys to devices: routes/sealed.go.
use Prim.Native.String
use revoked.Prelude.{
  ℕ, String, Bool, true, false, not, ◌&&◌, ◌||◌, Option, none, some, List, [], ◌∷◌, ◌==◌, leb,
  if◌then◌else◌, Verdict, refused, allowed, ◌>>=◌,
}
use text.Mathlib.Text.{starts_with}
use revoked.Sealed.Context.{Bytes}
use revoked.Sealed.Chain.{
  SealedChain, SealedChainEntry, Crypto, entry, head_seq, is_live, verify_sealed_signature,
}
use revoked.Sealed.Payloads.{sealed_wrap_payload, sealed_grant_payload}
use revoked.Members.{Member, member_can_administer, member_can_read_records}
use revoked.Vault.{
  KeyWrap, Keys, VaultRefusal, has_copy, has_epoch, sealed_invalid, sealed_version_conflict,
  sealed_identity_keys_pending, not_workspace_member, missing_permission,
}

abbrev pub max_sealed_entries : ℕ
max_sealed_entries = 64

abbrev pub max_sealed_wraps : ℕ
max_sealed_wraps = 500

-- `sealedWrap`
pub record SealedWrap : Type 0 where
  pub workspace : String
  pub epoch : ℕ
  pub device_seq : ℕ
  pub wrap : String
  pub signer_seq : ℕ
  pub chain_seq : ℕ
  pub signature : String

-- `sealedGrant`
pub record SealedGrant : Type 0 where
  pub user : String
  pub device_seq : ℕ
  pub wrap : String
  pub signer_seq : ℕ
  pub chain_seq : ℕ
  pub recipient_chain_seq : ℕ
  pub signature : String

-- The bytes of a text, and `decodeSealed`: what the strict decoder of base64 makes of a text that
-- is its own encoding.
pub record Codec : Type 0 where
  pub utf8 : String → Bytes
  pub decode_sealed : String → Option Bytes

-- What other collections say: the membership of a user in a workspace, and whether an identity key
-- of a workspace is still under the workspace's key.
pub record Directory : Type 0 where
  pub member_of : String → String → Option Member
  pub legacy_identity : String → Bool

-- The prefix of `SealedAccountScope`.
abbrev pub account_scope : String → String
account_scope user = String.◌++◌ "account:" user

abbrev pub decodes : Codec → String → Bool
decodes codec s = elim (codec.decode_sealed s) [ none ↦ false | some _ ↦ true ]

abbrev pub within : SealedChain → ℕ → Bool
within chain seq = leb 1 seq && leb seq (head_seq chain)

abbrev pub own_copy : String → String → SealedWrap → KeyWrap
own_copy scope user w = record {
  scope = scope;
  epoch = w.epoch;
  user = user;
  device_seq = w.device_seq;
  wrap = w.wrap;
  signer_seq = w.signer_seq;
  chain_seq = w.chain_seq;
  recipient_chain_seq = 0;
  signature = w.signature;
  granter = "";
}

abbrev pub granted_copy : String → ℕ → String → SealedGrant → KeyWrap
granted_copy workspace epoch granter g = record {
  scope = workspace;
  epoch = epoch;
  user = g.user;
  device_seq = g.device_seq;
  wrap = g.wrap;
  signer_seq = g.signer_seq;
  chain_seq = g.chain_seq;
  recipient_chain_seq = g.recipient_chain_seq;
  signature = g.signature;
  granter = granter;
}

module _ (codec : Codec) (crypto : Crypto) where
  abbrev signed_wrap : Option SealedChainEntry → Option SealedChainEntry → SealedWrap → Bytes → Bool
  signed_wrap (some signer) (some device) w signature =
      verify_sealed_signature crypto signer.signing_public_key
        (sealed_wrap_payload (codec.utf8 w.workspace) w.epoch device.hpke_public_key
          (codec.utf8 w.wrap) w.chain_seq)
        signature
  signed_wrap _ _ w signature = false

  -- `checkWrapSignature`, and the same test of `saveSealedWraps`
  unfoldable pub check_wrap_signature : SealedWrap → SealedChain → Bool
  check_wrap_signature w chain = elim (codec.decode_sealed w.signature) [
    | none ↦ false
    | some signature ↦
        decodes codec w.wrap
        && is_live chain w.device_seq
        && is_live chain w.signer_seq
        && within chain w.chain_seq
        && signed_wrap (entry chain w.signer_seq) (entry chain w.device_seq) w signature
  ]

  -- `saveAccountWrap`
  unfoldable pub save_account_wrap :
      String → SealedWrap → SealedChain → Keys → Verdict VaultRefusal Keys
  unfolding check_wrap_signature has_epoch has_copy
  save_account_wrap user w chain k =
      if not (check_wrap_signature w chain)
      then refused sealed_invalid
      else if not (has_epoch k.account_epochs user w.epoch)
      then refused sealed_invalid
      else if has_copy k.account_wraps user w.epoch user w.device_seq
      then refused sealed_version_conflict
      else allowed (record k { account_wraps = own_copy user user w ∷ k.account_wraps })

  -- One round of `saveSealedWraps`.
  unfoldable pub save_sealed_wrap :
      Directory → String → SealedWrap → SealedChain → Keys → Verdict VaultRefusal Keys
  unfolding save_account_wrap
  save_sealed_wrap dir user w chain k =
      if w.workspace == account_scope user
      then save_account_wrap user w chain k
      else if starts_with w.workspace (account_scope "")
      then refused sealed_invalid
      else elim (dir.member_of w.workspace user) [
        | none ↦ refused not_workspace_member
        | some _ ↦
            if not (check_wrap_signature w chain)
            then refused sealed_invalid
            else if not (has_epoch k.epochs w.workspace w.epoch)
            then refused sealed_invalid
            else if has_copy k.wraps w.workspace w.epoch user w.device_seq
            then refused sealed_version_conflict
            else allowed (record k { wraps = own_copy w.workspace user w ∷ k.wraps })
      ]

  -- `saveSealedWraps`
  unfoldable pub save_sealed_wraps :
      Directory → String → List SealedWrap → SealedChain → Keys → Verdict VaultRefusal Keys
  unfolding save_sealed_wrap
  save_sealed_wraps dir user [] chain k = allowed k
  save_sealed_wraps dir user (w ∷ ws) chain k = do
    k' ← save_sealed_wrap dir user w chain k
    save_sealed_wraps dir user ws chain k'

  -- The loop over the wraps of `startAccountEpoch`.
  unfoldable pub save_account_wraps :
      String → List SealedWrap → SealedChain → Keys → Verdict VaultRefusal Keys
  unfolding save_account_wrap
  save_account_wraps user [] chain k = allowed k
  save_account_wraps user (w ∷ ws) chain k = do
    k' ← save_account_wrap user w chain k
    save_account_wraps user ws chain k'

  abbrev signed_grant :
      Option SealedChainEntry
      → Option SealedChainEntry
      → String
      → ℕ
      → String
      → SealedGrant
      → Bytes
      → Bool
  signed_grant (some signer) (some device) workspace epoch granter g signature =
      verify_sealed_signature crypto signer.signing_public_key
        (sealed_grant_payload (codec.utf8 workspace) epoch (codec.utf8 g.user)
          device.hpke_public_key (codec.utf8 g.wrap) (codec.utf8 granter) g.chain_seq
          g.recipient_chain_seq)
        signature
  signed_grant _ _ workspace epoch granter g signature = false

  -- The test of a grant's signature: by the granter's device, for a device of the recipient.
  unfoldable pub check_grant_signature :
      String → ℕ → String → SealedGrant → SealedChain → SealedChain → Bool
  check_grant_signature workspace epoch granter g granter_chain chain =
      elim (codec.decode_sealed g.signature) [
        | none ↦ false
        | some signature ↦
            decodes codec g.wrap
            && is_live chain g.device_seq
            && is_live granter_chain g.signer_seq
            && within granter_chain g.chain_seq
            && within chain g.recipient_chain_seq
            && signed_grant (entry granter_chain g.signer_seq) (entry chain g.device_seq) workspace
                epoch granter g signature
      ]

  -- One round of `saveSealedGrants`.
  unfoldable pub save_sealed_grant :
      Directory → String → String → ℕ → SealedGrant → SealedChain → Keys → Verdict VaultRefusal Keys
  unfolding check_grant_signature has_copy
  save_sealed_grant dir granter workspace epoch g granter_chain k =
      if g.user == "" || g.user == granter
      then refused sealed_invalid
      else elim (dir.member_of workspace g.user) [
        | none ↦ refused not_workspace_member
        | some recipient ↦
            if not (member_can_read_records recipient)
            then refused missing_permission
            else if not
                (check_grant_signature workspace epoch granter g granter_chain (k.chains g.user))
            then refused sealed_invalid
            else if has_copy k.wraps workspace epoch g.user g.device_seq
            then refused sealed_version_conflict
            else allowed (record k { wraps = granted_copy workspace epoch granter g ∷ k.wraps })
      ]

  unfoldable pub save_grants :
      Directory
      → String
      → String
      → ℕ
      → List SealedGrant
      → SealedChain
      → Keys
      → Verdict VaultRefusal Keys
  unfolding save_sealed_grant
  save_grants dir granter workspace epoch [] chain k = allowed k
  save_grants dir granter workspace epoch (g ∷ gs) chain k = do
    k' ← save_sealed_grant dir granter workspace epoch g chain k
    save_grants dir granter workspace epoch gs chain k'

  -- `saveSealedGrants`, without the list of whom it granted to
  unfoldable pub save_sealed_grants :
      Directory
      → String
      → String
      → ℕ
      → List SealedGrant
      → SealedChain
      → Keys
      → Verdict VaultRefusal Keys
  unfolding save_grants
  save_sealed_grants dir granter workspace epoch [] chain k = allowed k
  save_sealed_grants dir granter workspace epoch (g ∷ gs) chain k =
      elim (dir.member_of workspace granter) [
        | none ↦ refused not_workspace_member
        | some member ↦
            if not (member_can_administer member)
            then refused missing_permission
            else if dir.legacy_identity workspace
            then refused sealed_identity_keys_pending
            else save_grants dir granter workspace epoch (g ∷ gs) chain k
      ]

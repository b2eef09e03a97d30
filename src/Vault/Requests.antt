-- ===== src/Vault/Requests.antt =====
-- The requests that change device lists and keys: routes/sealed.go.
use Prim.Native.String
use revoked.Prelude.{
  ℕ, ◌+◌, String, Bool, false, not, ◌&&◌, ◌||◌, Option, none, some, List, [], ◌∷◌, ◌==◌, eqb, ltb,
  leb, any, all, contains, if◌then◌else◌, Verdict, refused, allowed, ◌>>=◌, length, map,
}
use revoked.Sealed.Context.{Bytes}
use revoked.Sealed.Chain.{
  SealedChain, SealedChainEntry, Crypto, append, next_seq, live, same, sealed_action_add,
  sealed_action_remove, sealed_kind_device, sealed_kind_recovery, sealed_kind_passkey,
}
use revoked.Permissions.Scopes.{scope_record_create}
use revoked.Members.{Member, is_nil}
use revoked.Vault.{
  KeyEpoch, Keys, VaultRefusal, current_epoch, holds_key, sealed_invalid, sealed_version_conflict,
  sealed_key_missing, sealed_epoch_stale, missing_permission, workspace_not_found,
  withdraw_device_wraps,
}
use revoked.Vault.Handover.{
  SealedWrap, SealedGrant, Codec, Directory, decodes, max_sealed_entries, max_sealed_wraps,
  save_sealed_wraps, save_account_wraps, save_sealed_grants, account_scope,
}

abbrev pub max_sealed_credential_id : ℕ
max_sealed_credential_id = 1400

-- `sealedEntry`; the texts that a list compares are their bytes.
pub record SealedEntry : Type 0 where
  pub seq : ℕ
  pub action : Bytes
  pub kind : Bytes
  pub label : Bytes
  pub credential_id : Bytes
  pub hpke_public_key : String
  pub signing_public_key : String
  pub target_seq : ℕ
  pub previous_hash : String
  pub signer_seq : ℕ
  pub anchor_signature : String
  pub signature : String

abbrev or_empty : Option Bytes → Bytes
or_empty none = []
or_empty (some b) = b

abbrev pub set_chain : String → SealedChain → Keys → Keys
set_chain user chain k = record k { chains = λ u. if u == user then chain else k.chains u }

abbrev pub is_covered : List SealedWrap → ℕ → Bool
is_covered wraps seq = any (λ (w : SealedWrap). eqb w.device_seq seq) wraps

-- The wraps with the scope and the epoch that the route sets.
abbrev pub addressed : String → ℕ → SealedWrap → SealedWrap
addressed scope epoch w = record w { workspace = scope; epoch = epoch }

abbrev pub new_epoch : String → ℕ → String → String → KeyEpoch
new_epoch scope epoch prior_wrap created_by = record {
  scope = scope;
  epoch = epoch;
  prior_wrap = prior_wrap;
  created_by = created_by;
  rotation_due = false;
}

-- Whether an account's key may be started, or replaced by its next one.
abbrev pub may_start_account : Keys → String → ℕ → String → Option VaultRefusal
may_start_account k user epoch prior_wrap = elim (current_epoch k.account_epochs user) [
  | none ↦
      if not (eqb epoch 1) || not (prior_wrap == "") then some sealed_version_conflict else none
  | some current ↦
      if not (holds_key k.account_wraps user user current.epoch)
      then some sealed_key_missing
      else if not (eqb epoch (current.epoch + 1))
      then some sealed_version_conflict
      else if prior_wrap == ""
      then some sealed_invalid
      else none
]

-- Whether a workspace's key may be started, or replaced by its next one.
abbrev pub may_start : Keys → Member → String → String → ℕ → String → Option VaultRefusal
may_start k member user workspace epoch prior_wrap = elim (current_epoch k.epochs workspace) [
  | none ↦
      if not (is_nil member.permissions) && not (contains member.permissions scope_record_create)
      then some missing_permission
      else if not (eqb epoch 1) || not (prior_wrap == "")
      then some sealed_version_conflict
      else none
  | some current ↦
      if not (holds_key k.wraps workspace user current.epoch)
      then some sealed_key_missing
      else if not (eqb epoch (current.epoch + 1))
      then some sealed_version_conflict
      else if prior_wrap == ""
      then some sealed_invalid
      else none
]

module _ (codec : Codec) (crypto : Crypto) where
  -- `toChainEntry`, and whether all its fields decode
  unfoldable pub to_chain_entry : SealedEntry → Bytes → SealedChainEntry × Bool
  to_chain_entry e user = (
    record {
      user = user;
      seq = e.seq;
      action = e.action;
      kind = e.kind;
      label = e.label;
      credential_id = e.credential_id;
      hpke_public_key = or_empty (codec.decode_sealed e.hpke_public_key);
      signing_public_key = or_empty (codec.decode_sealed e.signing_public_key);
      target_seq = e.target_seq;
      previous_hash = or_empty (codec.decode_sealed e.previous_hash);
      signer_seq = e.signer_seq;
      anchor_signature = or_empty (codec.decode_sealed e.anchor_signature);
      signature = or_empty (codec.decode_sealed e.signature);
    },
    decodes codec e.hpke_public_key
        && decodes codec e.signing_public_key
        && decodes codec e.previous_hash
        && decodes codec e.anchor_signature
        && decodes codec e.signature,
  )

  -- `validSealedEntry`
  unfoldable pub valid_sealed_entry : SealedEntry → Bool
  unfolding to_chain_entry
  valid_sealed_entry e =
      if ltb e.seq 1 || ltb e.signer_seq 1 || ltb 255 (length e.label)
      then false
      else if not (to_chain_entry e []).1
      then false
      else if same e.action sealed_action_add
      then (if not (eqb e.target_seq 0)
          then false
          else if same e.kind sealed_kind_device || same e.kind sealed_kind_recovery
          then eqb (length e.credential_id) 0
          else if same e.kind sealed_kind_passkey
          then not (eqb (length e.credential_id) 0)
            && leb (length e.credential_id) max_sealed_credential_id
          else false)
      else if same e.action sealed_action_remove
      then leb 1 e.target_seq && eqb (length e.credential_id) 0
      else false

  -- One round of the loop of `appendSealedDevices`: the entry is stored, and a removal withdraws
  -- the copies of its target.
  unfoldable pub append_device : String → SealedEntry → Keys → Verdict VaultRefusal Keys
  unfolding to_chain_entry withdraw_device_wraps
  append_device user e k =
      if not (eqb e.seq (next_seq (k.chains user)))
      then refused sealed_version_conflict
      else if not (to_chain_entry e (codec.utf8 user)).1
      then refused sealed_invalid
      else elim (append crypto (k.chains user) (to_chain_entry e (codec.utf8 user)).0) [
        | none ↦ refused sealed_invalid
        | some chain ↦
            let stored = set_chain user chain k in
            if same e.action sealed_action_remove
            then allowed (withdraw_device_wraps user e.target_seq stored)
            else allowed stored
      ]

  unfoldable pub append_devices : String → List SealedEntry → Keys → Verdict VaultRefusal Keys
  unfolding append_device
  append_devices user [] k = allowed k
  append_devices user (e ∷ es) k = do k' ← append_device user e k; append_devices user es k'

  -- `appendSealedDevices`
  unfoldable pub append_sealed_devices :
      Directory → String → List SealedEntry → List SealedWrap → Keys → Verdict VaultRefusal Keys
  unfolding valid_sealed_entry append_devices save_sealed_wraps
  append_sealed_devices dir user entries wraps k =
      if eqb (length entries) 0
        || ltb max_sealed_entries (length entries)
        || ltb max_sealed_wraps (length wraps)
      then refused sealed_invalid
      else if not (all valid_sealed_entry entries)
      then refused sealed_invalid
      else do
        k' ← append_devices user entries k
        save_sealed_wraps codec crypto dir user wraps (k'.chains user) k'

  -- `startAccountEpoch`
  unfoldable pub start_account_epoch :
      String → ℕ → String → List SealedWrap → Keys → Verdict VaultRefusal Keys
  unfolding save_account_wraps
  start_account_epoch user epoch prior_wrap wraps k =
      if ltb epoch 1
        || eqb (length wraps) 0
        || ltb max_sealed_wraps (length wraps)
        || ltb 256 (String.len prior_wrap)
      then refused sealed_invalid
      else if not (prior_wrap == "") && not (decodes codec prior_wrap)
      then refused sealed_invalid
      else elim (may_start_account k user epoch prior_wrap) [
        | some why ↦ refused why
        | none ↦
            if not (all (is_covered wraps) (live (k.chains user)))
            then refused sealed_invalid
            else save_account_wraps codec crypto user
                (map (addressed (account_scope user) epoch) wraps) (k.chains user)
                (record k {
                  account_epochs = new_epoch user epoch prior_wrap "" ∷ k.account_epochs;
                })
      ]

  -- `grantSealedAccess`
  unfoldable pub grant_sealed_access :
      Directory → String → String → ℕ → List SealedGrant → Keys → Verdict VaultRefusal Keys
  unfolding save_sealed_grants
  grant_sealed_access dir user workspace epoch grants k =
      if ltb epoch 1 || eqb (length grants) 0 || ltb max_sealed_wraps (length grants)
      then refused sealed_invalid
      else elim (dir.member_of workspace user) [
        | none ↦ refused workspace_not_found
        | some _ ↦ elim (current_epoch k.epochs workspace) [
          | none ↦ refused sealed_key_missing
          | some current ↦
              if not (holds_key k.wraps workspace user current.epoch)
              then refused sealed_key_missing
              else if current.rotation_due || not (eqb epoch current.epoch)
              then refused sealed_epoch_stale
              else save_sealed_grants codec crypto dir user workspace epoch grants (k.chains user) k
        ]
      ]

  -- `startSealedEpoch`
  unfoldable pub start_sealed_epoch :
      Directory
      → String
      → String
      → ℕ
      → String
      → List SealedWrap
      → List SealedGrant
      → Keys
      → Verdict VaultRefusal Keys
  unfolding save_sealed_wraps save_sealed_grants
  start_sealed_epoch dir user workspace epoch prior_wrap wraps grants k =
      if ltb epoch 1 || eqb (length wraps) 0 || ltb max_sealed_wraps (length wraps + length grants)
      then refused sealed_invalid
      else if not (decodes codec prior_wrap)
      then refused sealed_invalid
      else elim (dir.member_of workspace user) [
        | none ↦ refused workspace_not_found
        | some member ↦ elim (may_start k member user workspace epoch prior_wrap) [
          | some why ↦ refused why
          | none ↦
              if not (all (is_covered wraps) (live (k.chains user)))
              then refused sealed_invalid
              else do
                k' ←
                    save_sealed_wraps codec crypto dir user (map (addressed workspace epoch) wraps)
                      (k.chains user)
                      (record k { epochs = new_epoch workspace epoch prior_wrap user ∷ k.epochs })
                save_sealed_grants codec crypto dir user workspace epoch grants (k'.chains user) k'
        ]
      ]

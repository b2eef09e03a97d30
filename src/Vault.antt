-- ===== src/Vault.antt =====
-- Keys of end-to-end encrypted records: services/sealed.go and the shared parts of
-- routes/sealed.go. The server keeps copies of keys that devices wrapped for each other, and never
-- the keys. A read or a write of the database that fails rolls the request back, which is no step
-- here.
pub mod Handover
pub mod Requests
pub mod Epochs
pub mod Records
pub mod Drawers
pub mod Sealing
pub mod Versions
pub mod Writers
pub mod Detached
pub mod Reset
pub mod Lost
pub mod Orphans
pub mod Cleared
pub mod Forgotten
mod Fixtures
mod Tests
mod Trials
pub mod Runs
pub mod Life
pub mod Rotation
pub mod Steps
pub mod Covered
pub mod Removal
use revoked.Prelude.{
  ℕ, zero, suc, ◌+◌, String, Bool, true, false, not, ◌&&◌, ◌||◌, Option, none, some, List, [], ◌∷◌,
  ◌++◌, ◌==◌, eqb, ltb, leb, any, keep, map, if◌then◌else◌, Verdict, refused, allowed,
}
use revoked.Sealed.Context.{Bytes}
use revoked.Sealed.Chain.{SealedChain, SealedChainEntry, Crypto}
use revoked.Members.{Member}

-- A row of workspaceKeyEpochs, where `scope` is the workspace, or of accountKeyEpochs, where it is
-- the user.
pub record KeyEpoch : Type 0 where
  pub scope : String
  pub epoch : ℕ
  pub prior_wrap : String
  pub created_by : String
  pub rotation_due : Bool

-- A row of workspaceKeyWraps or accountKeyWraps: the copy of a key that a device holds.
pub record KeyWrap : Type 0 where
  pub scope : String
  pub epoch : ℕ
  pub user : String
  pub device_seq : ℕ
  pub wrap : String
  pub signer_seq : ℕ
  pub chain_seq : ℕ
  pub recipient_chain_seq : ℕ
  pub signature : String
  pub granter : String

-- What the routes keep: the keys of workspaces and of accounts, and each person's device list as
-- `loadSealedChain` rebuilds it.
pub record Keys : Type 0 where
  pub epochs : List KeyEpoch
  pub wraps : List KeyWrap
  pub account_epochs : List KeyEpoch
  pub account_wraps : List KeyWrap
  pub chains : String → SealedChain

-- The refusals of the routes.
pub data VaultRefusal : Type 0 where
  sealed_invalid sealed_version_conflict sealed_key_missing sealed_epoch_stale : VaultRefusal
  sealed_record_unsupported sealed_identity_keys_pending not_workspace_member : VaultRefusal
  missing_permission workspace_not_found record_not_found not_authorized : VaultRefusal
  save_failed : VaultRefusal
  sealed_links_affected : ℕ → VaultRefusal

abbrev pub newer : KeyEpoch → Option KeyEpoch → KeyEpoch
newer e none = e
newer e (some f) = if ltb e.epoch f.epoch then f else e

-- `CurrentKeyEpoch` and `CurrentAccountEpoch`: the newest of a scope.
unfoldable pub current_epoch : List KeyEpoch → String → Option KeyEpoch
current_epoch [] scope = none
current_epoch (e ∷ es) scope =
    let rest = current_epoch es scope in if e.scope == scope then some (newer e rest) else rest

abbrev pub is_copy : String → String → ℕ → KeyWrap → Bool
is_copy scope user epoch w = w.scope == scope && w.user == user && eqb w.epoch epoch

-- `HoldsWorkspaceKey` and `HoldsAccountKey`
unfoldable pub holds_key : List KeyWrap → String → String → ℕ → Bool
holds_key wraps scope user epoch = any (is_copy scope user epoch) wraps

-- The query for a device's own copy.
unfoldable pub has_copy : List KeyWrap → String → ℕ → String → ℕ → Bool
has_copy wraps scope epoch user device =
    any (λ w. is_copy scope user epoch w && eqb w.device_seq device) wraps

-- The query for an epoch of a scope.
unfoldable pub has_epoch : List KeyEpoch → String → ℕ → Bool
has_epoch epochs scope epoch = any (λ e. e.scope == scope && eqb e.epoch epoch) epochs

abbrev pub due_at : String → ℕ → KeyEpoch → KeyEpoch
due_at scope epoch e =
    if e.scope == scope && eqb e.epoch epoch then record e { rotation_due = true } else e

-- `MarkKeyRotationDue` and `MarkAccountKeyRotationDue`
unfoldable pub mark_rotation_due : List KeyEpoch → String → List KeyEpoch
unfolding current_epoch
mark_rotation_due epochs scope = elim (current_epoch epochs scope) [
  | none ↦ epochs
  | some current ↦ map (due_at scope current.epoch) epochs
]

abbrev pub is_users : String → String → KeyWrap → Bool
is_users scope user w = w.scope == scope && w.user == user

-- `RevokeSealedAccess`
unfoldable pub revoke_sealed_access : String → String → Keys → Keys
unfolding mark_rotation_due
revoke_sealed_access user workspace k =
    if not (any (is_users workspace user) k.wraps) then k else record k {
      wraps = keep (λ w. not (is_users workspace user w)) k.wraps;
      epochs = mark_rotation_due k.epochs workspace;
    }

-- The workspaces of the rows, each once or more: marking one due twice changes nothing more.
abbrev pub mark_all_due : List KeyWrap → List KeyEpoch → List KeyEpoch
mark_all_due [] epochs = epochs
mark_all_due (w ∷ ws) epochs = mark_all_due ws (mark_rotation_due epochs w.scope)

abbrev pub is_devices : String → ℕ → KeyWrap → Bool
is_devices user device w = w.user == user && eqb w.device_seq device

-- `withdrawDeviceWraps`
unfoldable pub withdraw_device_wraps : String → ℕ → Keys → Keys
unfolding mark_rotation_due
withdraw_device_wraps user device k =
    let held = any (is_devices user device) k.account_wraps in
    record k {
      wraps = keep (λ w. not (is_devices user device w)) k.wraps;
      epochs = mark_all_due (keep (is_devices user device) k.wraps) k.epochs;
      account_wraps = keep (λ w. not (is_devices user device w)) k.account_wraps;
      account_epochs = if held then mark_rotation_due k.account_epochs user else k.account_epochs;
    }

-- `checkSealedWrite`: `none` lets the write pass.
unfoldable pub check_sealed_write : Keys → String → String → ℕ → Option VaultRefusal
unfolding current_epoch holds_key
check_sealed_write k workspace user key_epoch = elim (current_epoch k.epochs workspace) [
  | none ↦ some sealed_key_missing
  | some current ↦
      if not (holds_key k.wraps workspace user current.epoch)
      then some sealed_key_missing
      else if current.rotation_due || not (eqb key_epoch current.epoch)
      then some sealed_epoch_stale
      else none
]

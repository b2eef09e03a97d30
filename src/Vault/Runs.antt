-- ===== src/Vault/Runs.antt =====
-- The requests that reach the keys, one after another: routes/sealed.go.
use revoked.Prelude.{
  ℕ, String, Bool, true, false, not, ◌&&◌, List, [], ◌∷◌, ◌==◌, keep, contains, Verdict, refused,
  allowed,
}
use revoked.Sealed.Chain.{Crypto}
use revoked.Vault.{Keys, VaultRefusal, revoke_sealed_access}
use revoked.Vault.Handover.{SealedWrap, SealedGrant, Codec, Directory}
use revoked.Vault.Requests.{
  SealedEntry, append_sealed_devices, start_account_epoch, grant_sealed_access, start_sealed_epoch,
}
use revoked.Vault.Reset.{reset_keys, sealed_reset_confirmation, held_workspaces, has_holder}

-- A request, with what the directory says at its time, or the removal of a member.
pub data Event : Type 0 where
  devices : Directory → String → List SealedEntry → List SealedWrap → Event
  account : (user : String) (epoch : ℕ) (prior_wrap : String) → List SealedWrap → Event
  grant : Directory → (user workspace : String) (epoch : ℕ) → List SealedGrant → Event
  start :
      Directory
      → (user workspace : String) (epoch : ℕ) (prior_wrap : String) → List SealedWrap
      → List SealedGrant
      → Event
  revoke : (user workspace : String) → Event
  reset : (confirm user : String) → Event

-- A refused request leaves what it found.
abbrev pub after : Keys → Verdict VaultRefusal Keys → Keys
after k (refused why) = k
after k (allowed k') = k'

-- Whether a request is a reset that deletes the workspace's key: the person was handed it and
-- nobody else.
abbrev pub ends_key : String → Event → Keys → Bool
ends_key workspace (reset confirm user) k =
    confirm == sealed_reset_confirmation
    && contains (held_workspaces user k.wraps) workspace
    && not (has_holder (keep (λ w. not (w.user == user)) k.wraps) workspace)
ends_key workspace _ k = false

module _ (codec : Codec) (crypto : Crypto) where
  unfoldable pub run_event : Event → Keys → Keys
  unfolding append_sealed_devices start_account_epoch grant_sealed_access start_sealed_epoch
      revoke_sealed_access reset_keys
  run_event (devices dir user entries wraps) k =
      after k (append_sealed_devices codec crypto dir user entries wraps k)
  run_event (account user epoch prior_wrap wraps) k =
      after k (start_account_epoch codec crypto user epoch prior_wrap wraps k)
  run_event (grant dir user workspace epoch grants) k =
      after k (grant_sealed_access codec crypto dir user workspace epoch grants k)
  run_event (start dir user workspace epoch prior_wrap wraps grants) k =
      after k (start_sealed_epoch codec crypto dir user workspace epoch prior_wrap wraps grants k)
  run_event (revoke user workspace) k = revoke_sealed_access user workspace k
  run_event (reset confirm user) k = after k (reset_keys confirm user k)

  unfoldable pub run : List Event → Keys → Keys
  unfolding run_event
  run [] k = k
  run (e ∷ es) k = run es (run_event e k)

  -- No request of a run is a reset that deletes the workspace's key.
  unfoldable pub keeps_key : String → List Event → Keys → Bool
  unfolding run_event
  keeps_key workspace [] k = true
  keeps_key workspace (e ∷ es) k =
      not (ends_key workspace e k) && keeps_key workspace es (run_event e k)

-- ===== src/Vault/Trials.antt =====
-- The removal of a device of a workspace of two members, and a reset.
use revoked.Prelude.{◌<◌, ◌≡◌, refl, true, none, some, [], ◌∷◌, ◌==◌, allowed, if◌then◌else◌}
use revoked.Sealed.Context.{sealed_context}
use revoked.Sealed.Chain.{
  empty, is_live, live, head_seq, head_hash, hash, payload, append, acceptable, acceptable_action,
  sealed_action_remove, live_among, verify_sealed_signature, valid_sealed_public_key,
}
use revoked.Sealed.Payloads.{sealed_wrap_payload}
use revoked.Vault.{
  Keys, current_epoch, withdraw_device_wraps, check_sealed_write, holds_key, has_epoch, has_copy,
}
use revoked.Vault.Handover.{
  save_sealed_wrap, check_wrap_signature, own_copy, save_sealed_wraps, save_sealed_grants, Codec,
}
use revoked.Vault.Requests.{
  SealedEntry, append_sealed_devices, append_devices, append_device, valid_sealed_entry,
  to_chain_entry, start_sealed_epoch,
}
use revoked.Vault.Runs.{Event, devices, start, run, run_event, keeps_key}
use revoked.Vault.Removal.{removed_device_key_unused}
use revoked.Vault.Records.{VaultRecord, apply_sealed}
use revoked.Vault.Sealing.{rewritten}
use revoked.Vault.Reset.{Tables, reset_sealing, reset_workspaces, reset_account_key, reset_keys}
use revoked.Vault.Fixtures.{lax, zeros, codec, one, dir, first_key, handed, keys, plain, body}

ops : Unit {0}
unfolding current_epoch withdraw_device_wraps check_sealed_write holds_key has_epoch has_copy
    save_sealed_wrap check_wrap_signature start_sealed_epoch run run_event sealed_context
    sealed_wrap_payload is_live live live_among valid_sealed_public_key verify_sealed_signature
    reset_sealing reset_workspaces reset_account_key reset_keys keeps_key append_sealed_devices
    append_devices append_device valid_sealed_entry to_chain_entry append acceptable
    acceptable_action head_hash hash payload head_seq apply_sealed save_sealed_wraps
    save_sealed_grants
ops = tt

abbrev next_key : Event
next_key = start dir "ann" "home" 2 "p" (handed "home" ∷ []) []

newest : current_epoch keys.epochs "home" ≡ some first_key
unfolding ops
newest = refl

abbrev closed : VaultRecord
closed = rewritten plain body

-- Ann alone holds the key of "home", where a sealed record has an alias; the record of "away" is not
-- hers to lose.
abbrev tables : Tables
tables = record {
  keys = record keys { wraps = own_copy "home" "ann" (handed "home") ∷ [] };
  records =
      closed
      ∷ record plain { id = "p" }
      ∷ record plain { id = "a"; alias_of = "r" }
      ∷ record closed { workspace = "away" }
      ∷ [];
  identities = [];
}

abbrev tables_left : Tables
tables_left = record {
  keys = record {
    epochs = [];
    wraps = [];
    account_epochs = [];
    account_wraps = [];
    chains = λ u. if u == "ann" then empty else one;
  };
  records = record plain { id = "p" } ∷ record closed { workspace = "away" } ∷ [];
  identities = [];
}

-- Bob's only device leaves his list.
abbrev removal : SealedEntry
removal = record {
  seq = 2;
  action = sealed_action_remove;
  kind = [];
  label = [];
  credential_id = [];
  hpke_public_key = "";
  signing_public_key = "";
  target_seq = 1;
  previous_hash = "hash";
  signer_seq = 1;
  anchor_signature = "";
  signature = "s";
}

-- The texts of the removal, decoded.
abbrev list_codec : Codec
list_codec = record codec {
  decode_sealed = λ text. if text == "hash" then some (head_hash lax one) else some (zeros 64);
}

abbrev removed_keys : Keys
removed_keys = run list_codec lax (devices dir "bob" (removal ∷ []) [] ∷ []) keys

removes :
    append_sealed_devices list_codec lax dir "bob" (removal ∷ []) [] keys ≡ allowed removed_keys
unfolding ops
removes = refl

stays_removed : keeps_key list_codec lax "home" (next_key ∷ []) removed_keys ≡ true
unfolding ops
stays_removed = refl

renewed_after_device :
    check_sealed_write (run list_codec lax (next_key ∷ []) removed_keys) "home" "ann" 2 ≡ none
unfolding ops
renewed_after_device = refl

removed_device_key_unused_example : 1 < 2
removed_device_key_unused_example =
    removed_device_key_unused list_codec lax dir "bob" removal [] [] keys removed_keys "home"
      first_key (next_key ∷ []) "ann" 2 refl newest refl removes stays_removed renewed_after_device

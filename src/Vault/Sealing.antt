-- ===== src/Vault/Sealing.antt =====
-- Sealing, replacing and unsealing the value of a record: routes/sealed.go, services/sealed.go.
use revoked.Prelude.{
  ℕ, ◌+◌, String, Bool, true, false, not, ◌&&◌, ◌||◌, Option, none, some, [], ◌∷◌, ◌==◌, eqb, ltb,
  leb, keep, if◌then◌else◌, Verdict, refused, allowed, ◌>>=◌, length,
}
use revoked.Sealed.Context.{Bytes}
use revoked.Sealed.Chain.{Crypto, entry, is_live, verify_sealed_signature}
use revoked.Sealed.Payloads.{sealed_unseal_payload}
use revoked.Members.{Member}
use revoked.Access.{human, UserRecord, diagnose, Errors, action_create, action_update}
use revoked.Access.Registry.{access_spec_for}
use revoked.Vault.{
  Keys, VaultRefusal, current_epoch, holds_key, check_sealed_write, sealed_invalid,
  sealed_version_conflict, sealed_key_missing, sealed_record_unsupported, record_not_found,
  not_authorized, sealed_links_affected, save_failed,
}
use revoked.Vault.Handover.{Codec}
use revoked.Vault.Records.{
  VaultRecord, SealedPayload, valid_payload, apply_sealed, is_sealed, update_hooks,
  validate_sealed_record, type_file, max_record_value_length,
}
use revoked.Vault.Drawers.{Drawer, live_links_reading, detach_sealed_record}

-- The body of `writeSealedRecord`; an empty label, type or format leaves the record's.
pub record SealedWrite : Type 0 where
  pub payload : SealedPayload
  pub expected_version : ℕ
  pub drop_links : Bool
  pub key : String
  pub label : String
  pub type : String
  pub format : String

-- The body of `unsealRecord`
pub record UnsealRequest : Type 0 where
  pub expected_version : ℕ
  pub value : String
  pub device_seq : ℕ
  pub signature : String

-- The body of `createSealedRecord`
pub record SealedDraft : Type 0 where
  pub payload : SealedPayload
  pub id : String
  pub key : String
  pub label : String
  pub type : String
  pub format : String
  pub workspace : String

abbrev or_kept : String → String → String
or_kept given kept = if given == "" then kept else given

abbrev pub is_none : Errors → Bool
is_none [] = true
is_none (e ∷ es) = false

-- The runes of a text: the bytes that continue no rune.
abbrev rune_count : Bytes → ℕ
rune_count bs = length (keep (λ b. ltb b 128 || leb 192 b) bs)

module _ (find_member : String → String → Option Member) where
  -- `authorizeSealedUpdate`
  unfoldable pub authorize_sealed_update : UserRecord → VaultRecord → Option VaultRefusal
  authorize_sealed_update u rec = elim (access_spec_for "records" action_update) [
    | none ↦ some not_authorized
    | some spec ↦
        if is_none (
          diagnose find_member spec (record {
            caller = human u;
            is_superuser = false;
            record_workspace = rec.workspace;
            record_user = rec.user;
            record_is_response = not (rec.requested_by == "");
          }))
        then none
        else some record_not_found
  ]

  -- What `createSealedRecord` asks of the same table.
  unfoldable pub authorize_sealed_create : UserRecord → SealedDraft → Option VaultRefusal
  authorize_sealed_create u draft = elim (access_spec_for "records" action_create) [
    | none ↦ some not_authorized
    | some spec ↦
        if is_none (
            diagnose find_member spec (record {
              caller = human u;
              is_superuser = false;
              record_workspace = draft.workspace;
              record_user = u.id;
              record_is_response = false;
            }))
          && not (draft.workspace == "")
        then none
        else some not_authorized
  ]

-- The rest of a write of the record, once nothing refuses it.
abbrev pub rewritten : VaultRecord → SealedWrite → VaultRecord
rewritten rec body =
    let r = apply_sealed rec body.payload (body.expected_version + 1) in
    record r {
      label = or_kept body.label r.label;
      type = or_kept body.type r.type;
      format = or_kept body.format r.format;
    }

abbrev drafted : UserRecord → SealedDraft → VaultRecord
drafted u draft = record {
  id = draft.id;
  key = draft.key;
  label = draft.label;
  type = draft.type;
  format = draft.format;
  user = u.id;
  workspace = draft.workspace;
  alias_of = "";
  requested_by = "";
  value = "";
  seal = record { sealed = false; sealed_value = ""; version = 0; key_epoch = 0; key_wrap = "" };
}

abbrev pub unsealed : VaultRecord → UnsealRequest → VaultRecord
unsealed rec body = record rec {
  value = body.value;
  seal = record {
    sealed = false;
    sealed_value = "";
    version = body.expected_version + 1;
    key_epoch = 0;
    key_wrap = "";
  };
}

module _ (saves : VaultRecord → Bool) where
  -- `tx.Save` of a record that the transaction read, and what follows it.
  abbrev save : VaultRecord → VaultRecord → Drawer → Verdict VaultRefusal Drawer
  save original rec d =
      if update_hooks saves d.row original rec
      then allowed (record d { row = some rec })
      else refused save_failed

  -- What the transaction of `writeSealedRecord` does to the record that it reads.
  unfoldable pub write_row :
      Keys → String → SealedWrite → VaultRecord → Drawer → Verdict VaultRefusal Drawer
  unfolding check_sealed_write live_links_reading detach_sealed_record apply_sealed update_hooks
  write_row k user body rec d =
      if rec.type == type_file || not (rec.alias_of == "")
      then refused sealed_record_unsupported
      else if not (eqb rec.seal.version body.expected_version) || not (rec.key == body.key)
      then refused sealed_version_conflict
      else elim (check_sealed_write k rec.workspace user body.payload.key_epoch) [
        | some why ↦ refused why
        | none ↦
            if not (is_sealed rec) && not body.drop_links && ltb 0 (live_links_reading rec.id d)
            then refused (sealed_links_affected (live_links_reading rec.id d))
            else do
              d' ← save rec (rewritten rec body) d
              allowed (if is_sealed rec then d' else detach_sealed_record rec.id d')
      ]

module _ (codec : Codec) (crypto : Crypto) where
  -- The signature of a device of the caller on what is to be shown in plaintext.
  abbrev pub signed_unseal : Keys → String → String → UnsealRequest → Bool
  signed_unseal k user id body = elim (codec.decode_sealed body.signature) [
    | none ↦ false
    | some signature ↦
        is_live (k.chains user) body.device_seq && elim (entry (k.chains user) body.device_seq) [
          | none ↦ false
          | some device ↦
              verify_sealed_signature crypto device.signing_public_key
                (sealed_unseal_payload (codec.utf8 user) (codec.utf8 id) body.expected_version
                  (codec.utf8 body.value))
                signature
        ]
  ]

  -- What the transaction of `unsealRecord` does to the record that it reads.
  unfoldable pub unseal_row :
      (VaultRecord → Bool)
      → Keys
      → String
      → UnsealRequest
      → VaultRecord
      → Drawer
      → Verdict VaultRefusal Drawer
  unfolding current_epoch holds_key update_hooks
  unseal_row saves k user body rec d =
      if not (is_sealed rec) || not (eqb rec.seal.version body.expected_version)
      then refused sealed_version_conflict
      else elim (current_epoch k.epochs rec.workspace) [
        | none ↦ refused sealed_key_missing
        | some current ↦
            if not (holds_key k.wraps rec.workspace user current.epoch)
            then refused sealed_key_missing
            else if not (signed_unseal k user rec.id body)
            then refused sealed_key_missing
            else save saves rec (unsealed rec body) d
      ]

  module _ (find_member : String → String → Option Member) (saves : VaultRecord → Bool) where
    -- `writeSealedRecord`: `first` is the record as it was read before the transaction.
    unfoldable pub write_sealed_record :
        Keys → UserRecord → SealedWrite → Option VaultRecord → Drawer → Verdict VaultRefusal Drawer
    unfolding valid_payload authorize_sealed_update write_row
    write_sealed_record k u body first d =
        if not (valid_payload codec body.payload) then refused sealed_invalid else elim first [
          | none ↦ refused record_not_found
          | some seen ↦ elim (authorize_sealed_update find_member u seen) [
            | some why ↦ refused why
            | none ↦ elim d.row [
              | none ↦ refused record_not_found
              | some rec ↦ write_row saves k u.id body rec d
            ]
          ]
        ]

    -- `unsealRecord`
    unfoldable pub unseal_record :
        Keys
        → UserRecord
        → UnsealRequest
        → Option VaultRecord
        → Drawer
        → Verdict VaultRefusal Drawer
    unfolding authorize_sealed_update unseal_row
    unseal_record k u body first d =
        if ltb body.expected_version 1
          || body.value == ""
          || ltb max_record_value_length (rune_count (codec.utf8 body.value))
        then refused sealed_invalid
        else elim first [
          | none ↦ refused record_not_found
          | some seen ↦ elim (authorize_sealed_update find_member u seen) [
            | some why ↦ refused why
            | none ↦ elim d.row [
              | none ↦ refused record_not_found
              | some rec ↦ unseal_row saves k u.id body rec d
            ]
          ]
        ]

    -- `createSealedRecord`: `is_record_id` is the pattern of ids.
    unfoldable pub create_sealed_record :
        (String → Bool) → Keys → UserRecord → SealedDraft → Verdict VaultRefusal VaultRecord
    unfolding valid_payload authorize_sealed_create check_sealed_write apply_sealed
        validate_sealed_record
    create_sealed_record is_record_id k u draft =
        if not (valid_payload codec draft.payload) || not (is_record_id draft.id)
        then refused sealed_invalid
        else if draft.type == type_file
        then refused sealed_record_unsupported
        else elim (authorize_sealed_create find_member u draft) [
          | some why ↦ refused why
          | none ↦ elim (check_sealed_write k draft.workspace u.id draft.payload.key_epoch) [
            | some why ↦ refused why
            | none ↦
                let rec = apply_sealed (drafted u draft) draft.payload 1 in
                if validate_sealed_record rec && saves rec then allowed rec else refused save_failed
          ]
        ]

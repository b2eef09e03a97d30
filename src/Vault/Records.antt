-- ===== src/Vault/Records.antt =====
-- Records that are sealed: routes/sealed.go, services/sealed.go and hooks/sealed.go.
-- A number of a request is not negative, which the routes refuse otherwise.
use revoked.Prelude.{
  ℕ, String, Bool, true, false, not, ◌&&◌, ◌||◌, Option, none, some, ◌==◌, eqb, leb, if◌then◌else◌,
}
use revoked.Vault.Handover.{Codec, decodes}

abbrev pub type_file : String
type_file = "file"

abbrev pub max_record_value_length : ℕ
max_record_value_length = 1000

-- What makes a record sealed: `sealedOnlyFields`
pub record Seal : Type 0 where
  pub sealed : Bool
  pub sealed_value : String
  pub version : ℕ
  pub key_epoch : ℕ
  pub key_wrap : String

-- A row of records, as far as these files read it.
pub record VaultRecord : Type 0 where
  pub id : String
  pub key : String
  pub label : String
  pub type : String
  pub format : String
  pub user : String
  pub workspace : String
  pub alias_of : String
  pub requested_by : String
  pub value : String
  pub seal : Seal

-- `IsSealed`
abbrev pub is_sealed : VaultRecord → Bool
is_sealed rec = rec.seal.sealed

-- `IsSealedThroughAlias`, with the record that the alias names
unfoldable pub is_sealed_through_alias : (String → Option VaultRecord) → Option VaultRecord → Bool
is_sealed_through_alias find_record none = false
is_sealed_through_alias find_record (some rec) =
    if is_sealed rec
    then true
    else if rec.alias_of == ""
    then false
    else elim (find_record rec.alias_of) [ none ↦ false | some parent ↦ is_sealed parent ]

-- `sealedPayload`
pub record SealedPayload : Type 0 where
  pub sealed_value : String
  pub key_epoch : ℕ
  pub key_wrap : String

-- `valid`
unfoldable pub valid_payload : Codec → SealedPayload → Bool
valid_payload codec p =
    leb 1 p.key_epoch
    && not (p.sealed_value == "")
    && not (p.key_wrap == "")
    && decodes codec p.sealed_value
    && decodes codec p.key_wrap

-- `applySealed`
unfoldable pub apply_sealed : VaultRecord → SealedPayload → ℕ → VaultRecord
apply_sealed rec p version = record rec {
  value = "";
  seal = record {
    sealed = true;
    sealed_value = p.sealed_value;
    version = version;
    key_epoch = p.key_epoch;
    key_wrap = p.key_wrap;
  };
}

-- `validateSealedRecord`: whether it lets the record pass.
unfoldable pub validate_sealed_record : VaultRecord → Bool
validate_sealed_record rec =
    if not (is_sealed rec)
    then true
    else rec.value == ""
      && not (rec.seal.sealed_value == "" || rec.seal.key_wrap == "")
      && not (rec.type == type_file)
      && rec.alias_of == ""

-- `refuseStaleRecordWrite`: whether it lets a record pass that was loaded as `original`.
unfoldable pub refuse_stale_record_write : Option VaultRecord → VaultRecord → Bool
refuse_stale_record_write none original = true
refuse_stale_record_write (some fresh) original = eqb fresh.seal.version original.seal.version

-- The hooks on an update of a record, where `saves` says what the rest of the hooks and the
-- database accept. The record of the routes was read in the transaction that saves it.
unfoldable pub update_hooks :
    (VaultRecord → Bool) → Option VaultRecord → VaultRecord → VaultRecord → Bool
unfolding validate_sealed_record refuse_stale_record_write
update_hooks saves fresh original rec =
    refuse_stale_record_write fresh original && validate_sealed_record rec && saves rec

abbrev pub same_seal : Seal → Seal → Bool
same_seal s t =
    (if s.sealed then t.sealed else not t.sealed)
    && s.sealed_value == t.sealed_value
    && eqb s.version t.version
    && eqb s.key_epoch t.key_epoch
    && s.key_wrap == t.key_wrap

abbrev is_unset : String → Bool
is_unset s = s == "" || s == "0" || s == "false"

-- The hook of `BindSealedHooks` on a create: no field of a seal holds anything.
unfoldable pub create_request : VaultRecord → Bool
create_request rec =
    not rec.seal.sealed
    && is_unset rec.seal.sealed_value
    && eqb rec.seal.version 0
    && eqb rec.seal.key_epoch 0
    && is_unset rec.seal.key_wrap

-- The hook of `BindSealedHooks` on an update: `original` is the record as it was loaded.
unfoldable pub update_request : VaultRecord → VaultRecord → Bool
update_request original rec =
    same_seal rec.seal original.seal
    && (not (is_sealed original) || (rec.value == "" && rec.key == original.key))

-- An update of the collection API: the record as it is now, as it was loaded, and as it is saved.
unfoldable pub api_update :
    (VaultRecord → Bool) → VaultRecord → VaultRecord → VaultRecord → Option VaultRecord
unfolding update_hooks update_request
api_update saves fresh original rec =
    if update_request original rec && update_hooks saves (some fresh) original rec
    then some rec
    else none

-- ===== src/Vault/Reset.antt =====
-- Starting over with encryption: `resetSealing` of routes/sealed.go. A record that is deleted takes
-- its aliases with it (migrations/000025_add_record_aliases.go).
use revoked.Prelude.{
  ℕ, zero, suc, ◌≡◌, refl, String, Bool, not, ◌&&◌, ◌||◌, List, [], ◌∷◌, ◌==◌, any, keep, map,
  length, if◌then◌else◌, arith, Verdict, refused, allowed,
}
use revoked.Sealed.Chain.{empty}
use revoked.Vault.{KeyWrap, Keys, VaultRefusal, mark_rotation_due, sealed_invalid}
use revoked.Vault.Records.{VaultRecord, is_sealed}

-- `sealedResetConfirmation`
abbrev pub sealed_reset_confirmation : String
sealed_reset_confirmation = "delete my encrypted records"

-- An identity, as far as its key is sealed.
pub record IdentityRow : Type 0 where
  pub user : String
  pub sealed_key : String
  pub sealed_key_epoch : ℕ
  pub sealed_key_scope : String

-- The tables that a reset writes.
pub record Tables : Type 0 where
  pub keys : Keys
  pub records : List VaultRecord
  pub identities : List IdentityRow

-- What `resetAccountKey` deletes of the keys.
abbrev pub reset_account_keys : String → Keys → Keys
reset_account_keys user k = record k {
  account_wraps = keep (λ w. not (w.user == user)) k.account_wraps;
  account_epochs = keep (λ e. not (e.scope == user)) k.account_epochs;
}

abbrev clear_identity : String → IdentityRow → IdentityRow
clear_identity user i =
    if i.user == user && not (i.sealed_key == "")
    then record i { sealed_key = ""; sealed_key_epoch = 0; sealed_key_scope = "" }
    else i

-- `resetAccountKey`
unfoldable pub reset_account_key : String → Tables → Tables
reset_account_key user t = record t {
  keys = reset_account_keys user t.keys;
  identities = map (clear_identity user) t.identities;
}

abbrev pub has_holder : List KeyWrap → String → Bool
has_holder wraps workspace = any (λ w. w.scope == workspace) wraps

abbrev pub is_sealed_in : String → VaultRecord → Bool
is_sealed_in workspace r = workspace == r.workspace && is_sealed r

-- Whether a record goes when the sealed ones of the workspace are deleted: it is one of them, or an
-- alias of a record that goes. No chain of aliases is longer than the number of rows.
abbrev pub goes_with : ℕ → String → List VaultRecord → VaultRecord → Bool
goes_with zero workspace rows r = is_sealed_in workspace r
goes_with (suc n) workspace rows r =
    is_sealed_in workspace r
    || (not (r.alias_of == "")
        && any (λ p. p.id == r.alias_of && goes_with n workspace rows p) rows)

-- The deletion of the sealed records of a workspace, and of the aliases with them.
unfoldable pub delete_sealed : String → List VaultRecord → List VaultRecord
delete_sealed workspace rows = keep (λ r. not (goes_with (length rows) workspace rows r)) rows

-- One round over the workspaces, on the keys: where somebody else holds the key, it falls due;
-- where nobody does, it is deleted.
unfoldable pub reset_workspace_key : String → Keys → Keys
unfolding mark_rotation_due
reset_workspace_key workspace k =
    if has_holder k.wraps workspace
    then record k { epochs = mark_rotation_due k.epochs workspace }
    else record k { epochs = keep (λ e. not (e.scope == workspace)) k.epochs }

-- The round with the records: what a key that is deleted sealed goes with it.
unfoldable pub reset_workspace : String → Tables → Tables
unfolding reset_workspace_key delete_sealed
reset_workspace workspace t = record t {
  keys = reset_workspace_key workspace t.keys;
  records =
      if has_holder t.keys.wraps workspace then t.records else delete_sealed workspace t.records;
}

-- The rounds, in any order: the code keeps the workspaces as the keys of a map.
unfoldable pub reset_workspaces : List String → Tables → Tables
unfolding reset_workspace
reset_workspaces [] t = t
reset_workspaces (w ∷ ws) t = reset_workspaces ws (reset_workspace w t)

unfoldable pub reset_workspace_keys : List String → Keys → Keys
unfolding reset_workspace_key
reset_workspace_keys [] k = k
reset_workspace_keys (w ∷ ws) k = reset_workspace_keys ws (reset_workspace_key w k)

-- The deletion of a person's copies and devices.
abbrev pub without_person : String → Keys → Keys
without_person user k = record k {
  wraps = keep (λ w. not (w.user == user)) k.wraps;
  chains = λ u. if u == user then empty else k.chains u;
}

-- The workspaces of a person's copies.
abbrev pub held_workspaces : String → List KeyWrap → List String
held_workspaces user wraps = map (λ w. w.scope) (keep (λ w. w.user == user) wraps)

-- `resetSealing`
unfoldable pub reset_sealing : String → String → Tables → Verdict VaultRefusal Tables
unfolding reset_account_key reset_workspaces
reset_sealing confirm user t =
    if not (confirm == sealed_reset_confirmation)
    then refused sealed_invalid
    else allowed (
        reset_workspaces (held_workspaces user t.keys.wraps)
          (reset_account_key user (record t { keys = without_person user t.keys })))

-- What a reset does to the keys, which do not depend on the records.
unfoldable pub reset_keys : String → String → Keys → Verdict VaultRefusal Keys
unfolding reset_workspace_keys
reset_keys confirm user k =
    if not (confirm == sealed_reset_confirmation)
    then refused sealed_invalid
    else allowed (
        reset_workspace_keys (held_workspaces user k.wraps)
          (reset_account_keys user (without_person user k)))

reset_workspaces-keys :
    (ws : List String) (t : Tables) → (reset_workspaces ws t).keys ≡ reset_workspace_keys ws t.keys
unfolding reset_workspaces reset_workspace_keys reset_workspace
reset_workspaces-keys [] t = refl
reset_workspaces-keys (w ∷ ws) t = reset_workspaces-keys ws (reset_workspace w t)

-- A reset that is accepted leaves the keys that `reset_keys` computes.
pub reset_sealing-keys :
    (confirm user : String) (t : Tables) {t' : Tables}
    → reset_sealing confirm user t ≡ allowed t'
    → reset_keys confirm user t.keys ≡ allowed t'.keys
unfolding reset_sealing reset_keys reset_account_key
reset_sealing-keys confirm user t {t'} h = ground (
  arith,
  reset_workspaces-keys (held_workspaces user t.keys.wraps)
      (reset_account_key user (record t { keys = without_person user t.keys })),
)

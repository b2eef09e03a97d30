-- ===== src/Vault/Tests.antt =====
-- Runs in a workspace of two members, one of whom is removed.
use mathlib.Core.List.Memᴰ.{head}
use revoked.Prelude.{
  any, eqb, ◌<◌, ◌≡◌, refl, true, false, none, some, [], ◌∷◌, arith, refused, allowed,
}
use revoked.Sealed.Context.{sealed_context}
use revoked.Sealed.Chain.{
  is_live, live, head_seq, live_among, verify_sealed_signature, valid_sealed_public_key,
}
use revoked.Sealed.Payloads.{sealed_wrap_payload, sealed_unseal_payload}
use revoked.Access.{diagnose}
use revoked.Access.Registry.{access_spec_for, collection_access, spec_among}
use revoked.Vault.{
  Keys, current_epoch, revoke_sealed_access, check_sealed_write, holds_key, has_epoch, has_copy,
  sealed_version_conflict, sealed_epoch_stale,
}
use revoked.Vault.Handover.{
  save_sealed_wrap, check_wrap_signature, save_sealed_wraps, save_sealed_grants,
}
use revoked.Vault.Requests.{start_sealed_epoch, may_start}
use revoked.Vault.Runs.{Event, start, revoke, reset, run, run_event, keeps_key}
use revoked.Vault.Life.{KeyLife, key_state}
use revoked.Vault.Removal.{keys_follow_life}
use revoked.Vault.Records.{
  VaultRecord, api_update, update_hooks, update_request, valid_payload, apply_sealed,
  refuse_stale_record_write, validate_sealed_record,
}
use revoked.Vault.Drawers.{Drawer, detach_all, detach_sealed_record, live_links_reading}
use revoked.Vault.Sealing.{
  UnsealRequest, write_row, unseal_row, write_sealed_record, rewritten, unsealed,
  authorize_sealed_update,
}
use revoked.Vault.Versions.{History, begun, wrote, stale_write_refused, api_update-keeps_sealed}
use revoked.Vault.Writers.{removed_key_seals_nothing, own_wrap_makes_holder}
use revoked.Vault.Covered.{start-covers}
use revoked.Vault.Reset.{reset_keys}
use revoked.Vault.Fixtures.{
  lax, codec, one, plain_member, dir, first_key, handed, keys, ann, everyone, saves, plain, body,
  link, drawer,
}

ops : Unit {0}
unfolding current_epoch revoke_sealed_access check_sealed_write holds_key has_epoch has_copy
    save_sealed_wrap check_wrap_signature start_sealed_epoch run run_event sealed_context
    sealed_wrap_payload sealed_unseal_payload is_live live live_among valid_sealed_public_key
    verify_sealed_signature api_update update_hooks update_request write_row unseal_row
    write_sealed_record detach_sealed_record live_links_reading authorize_sealed_update
    access_spec_for collection_access spec_among diagnose reset_keys keeps_key head_seq
    valid_payload apply_sealed refuse_stale_record_write validate_sealed_record save_sealed_wraps
    save_sealed_grants key_state detach_all
ops = tt

-- Bob is removed, and Ann starts the next key.
abbrev next_key : Event
next_key = start dir "ann" "home" 2 "p" (handed "home" ∷ []) []

abbrev left_keys : Keys
left_keys = run codec lax (next_key ∷ []) (revoke_sealed_access "bob" "home" keys)

renewed : check_sealed_write left_keys "home" "ann" 2 ≡ none
unfolding ops
renewed = refl

outdated : check_sealed_write left_keys "home" "ann" 1 ≡ some sealed_epoch_stale
unfolding ops
outdated = refl

-- A reset by somebody who was never handed the key.
abbrev outside_reset : Event
outside_reset = reset "delete my encrypted records" "eve"

key_stays :
    keeps_key codec lax "home" (revoke "bob" "home" ∷ next_key ∷ outside_reset ∷ []) keys ≡ true
unfolding ops
key_stays = refl

keys_follow_life_example :
    KeyLife (some (record { number = 1; due = false })) (some (record { number = 2; due = false }))
unfolding ops
keys_follow_life_example =
    keys_follow_life codec lax (revoke "bob" "home" ∷ next_key ∷ outside_reset ∷ []) keys "home"
      key_stays

abbrev closed : VaultRecord
closed = rewritten plain body

abbrev closed_drawer : Drawer
closed_drawer = record drawer {
  row = some closed;
  links = record link { records = "s" ∷ []; grants = []; snapshot = [] } ∷ [];
}

written :
    write_sealed_record codec lax everyone saves left_keys ann body (some plain) drawer
    ≡ allowed closed_drawer
unfolding ops
written = refl

written_row : write_row saves left_keys "ann" body plain drawer ≡ allowed closed_drawer
unfolding ops
written_row = refl

newest : current_epoch keys.epochs "home" ≡ some first_key
unfolding ops
newest = refl

key_stays_left :
    keeps_key codec lax "home" (next_key ∷ []) (revoke_sealed_access "bob" "home" keys) ≡ true
unfolding ops
key_stays_left = refl

removed_key_seals_nothing_example : 1 < 2
removed_key_seals_nothing_example =
    removed_key_seals_nothing codec lax everyone saves keys "bob" "home" first_key (next_key ∷ [])
      ann body (some plain) drawer plain {d' = closed_drawer} newest refl key_stays_left refl refl
      written

abbrev sealed_history : History (plain ∷ []) closed
sealed_history =
    wrote (begun plain) saves left_keys "ann" body drawer closed_drawer written_row refl

stale_write_refused_example :
    write_row saves left_keys "ann" body closed closed_drawer ≡ refused sealed_version_conflict
unfolding apply_sealed
stale_write_refused_example =
    stale_write_refused closed saves left_keys "ann" body closed_drawer sealed_history (head refl)
      (omega arith) refl refl

abbrev relabelled : VaultRecord
relabelled = record closed { label = "other" }

edit : api_update saves closed closed relabelled ≡ some relabelled
unfolding ops
edit = refl

api_update-keeps_sealed_example :
    (relabelled.seal ≡ closed.seal) × (relabelled.value ≡ "") × (relabelled.key ≡ closed.key)
unfolding apply_sealed
api_update-keeps_sealed_example =
    api_update-keeps_sealed closed relabelled saves {rec' = relabelled} sealed_history (head refl)
      edit refl

abbrev unseal : UnsealRequest
unseal = record { expected_version = 1; value = "v"; device_seq = 1; signature = "s" }

abbrev open_drawer : Drawer
open_drawer = record closed_drawer { row = some (unsealed closed unseal) }

shown : unseal_row codec lax saves left_keys "ann" unseal closed closed_drawer ≡ allowed open_drawer
unfolding ops
shown = refl

signed_wrap : check_wrap_signature codec lax (handed "home") one ≡ true
unfolding ops
signed_wrap = refl

no_copy : has_copy keys.wraps "home" 1 "eve" 1 ≡ false
unfolding ops
no_copy = refl

own_wrap_makes_holder_example :
    (k' : Keys) × (save_sealed_wrap codec lax dir "eve" (handed "home") one keys ≡ allowed k')
    × (check_sealed_write k' "home" "eve" 1 ≡ none)
    × (may_start k' plain_member "eve" "home" 2 "p" ≡ none)
own_wrap_makes_holder_example =
    own_wrap_makes_holder codec lax dir "eve" plain_member (handed "home") keys first_key "p" refl
      refl refl signed_wrap newest refl refl no_copy refl

abbrev renewed_keys : Keys
renewed_keys = run codec lax (next_key ∷ []) keys

started :
    start_sealed_epoch codec lax dir "ann" "home" 2 "p" (handed "home" ∷ []) [] keys
    ≡ allowed renewed_keys
unfolding ops
started = refl

on_list : any (eqb 1) (live (keys.chains "ann")) ≡ true
unfolding ops
on_list = refl

start-covers_example : has_copy renewed_keys.wraps "home" 2 "ann" 1 ≡ true
start-covers_example =
    start-covers codec lax dir "ann" "home" 2 "p" (handed "home" ∷ []) [] keys 1 {k' = renewed_keys}
      refl started on_list

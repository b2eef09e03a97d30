-- ===== src/Vault/Removal.antt =====
-- The keys of a workspace over requests none of which is a reset that deletes them, and what may
-- still be written after a member or a device is removed (routes/sealed.go, services/sealed.go).
use revoked.Prelude.{
  ℕ, ◌<◌, ◌≡◌, refl, sym, ◌∙◌, String, Bool, true, false, ◌&&◌, ◌||◌, Option, none, some, List, [],
  ◌∷◌, ◌==◌, eqb, ltb, keep, any, arith, Bool-cases, Option-cases, inl, inr, Verdict, refused,
  allowed, allowed_parts,
}
use revoked.Sealed.Chain.{Crypto, same, sealed_action_remove}
use revoked.Vault.{
  KeyEpoch, KeyWrap, Keys, VaultRefusal, current_epoch, mark_all_due, withdraw_device_wraps,
  revoke_sealed_access, is_users, check_sealed_write, is_devices,
}
use revoked.Vault.Handover.{Codec, Directory, SealedWrap}
use revoked.Vault.Requests.{
  SealedEntry, append_device, append_devices, append_sealed_devices, start_account_epoch,
  grant_sealed_access, start_sealed_epoch,
}
use revoked.Vault.Runs.{
  Event, devices, account, grant, start, revoke, reset, run_event, run, after, ends_key, keeps_key,
}
use revoked.Vault.Reset.{reset_keys}
use revoked.Vault.Forgotten.{reset_keys-life}
use revoked.Vault.Life.{
  KeyState, KeyLife, unchanged, begun, fell_due, replaced, followed, key_state, mark-life, state_of,
}
use revoked.Vault.Steps.{
  start_sealed_epoch-life, append_sealed_devices-life, append_sealed_devices-parts,
  start_account_epoch-epochs, grant_sealed_access-epochs,
}
use revoked.Vault.Rotation.{append_devices-life}
use revoked.Vault.Epochs.{off_limits, mark-sets, mark_all-sets}

-- A refused request changes no key.
after-life :
    (v : Verdict VaultRefusal Keys) (k : Keys) (scope : String)
    → ((k' : Keys)
        → v ≡ allowed k'
        → KeyLife (key_state k.epochs scope) (key_state k'.epochs scope))
    → KeyLife (key_state k.epochs scope) (key_state (after k v).epochs scope)
after-life (refused why) k scope step = unchanged (key_state k.epochs scope)
after-life (allowed k') k scope step = step k' refl

same-life :
    (k k' : Keys) (scope : String)
    → k'.epochs ≡ k.epochs
    → KeyLife (key_state k.epochs scope) (key_state k'.epochs scope)
same-life k k' scope kept = rw kept (unchanged (key_state k.epochs scope))

revoke_sealed_access-life :
    (user workspace : String) (k : Keys) (scope : String)
    → KeyLife
        (key_state k.epochs scope)
        (key_state (revoke_sealed_access user workspace k).epochs scope)
unfolding revoke_sealed_access
revoke_sealed_access-life user workspace k scope =
    elim (Bool-cases (any (is_users workspace user) k.wraps)) [
      | inl held ↦ rw (revoke_sealed_access, held) (mark-life k.epochs scope workspace)
      | inr other ↦ rw (revoke_sealed_access, other) (unchanged (key_state k.epochs scope))
    ]

module _ (codec : Codec) (crypto : Crypto) where
  run_event-life :
      (e : Event) (k : Keys) (scope : String)
      → ends_key scope e k ≡ false
      → KeyLife (key_state k.epochs scope) (key_state (run_event codec crypto e k).epochs scope)
  unfolding run_event
  run_event-life (devices dir user entries wraps) k scope same =
      after-life (append_sealed_devices codec crypto dir user entries wraps k) k scope (λ k' answer.
        append_sealed_devices-life codec crypto dir user entries wraps k scope {k' = k'} answer)
  run_event-life (account user epoch prior_wrap wraps) k scope same =
      after-life (start_account_epoch codec crypto user epoch prior_wrap wraps k) k scope
        (λ k' answer.
          same-life k k' scope (
            start_account_epoch-epochs codec crypto user epoch prior_wrap wraps k {k' = k'} answer))
  run_event-life (grant dir user workspace epoch grants) k scope same =
      after-life (grant_sealed_access codec crypto dir user workspace epoch grants k) k scope
        (λ k' answer. same-life k k' scope (
          grant_sealed_access-epochs codec crypto dir user workspace epoch grants k {k' = k'}
            answer))
  run_event-life (start dir user workspace epoch prior_wrap wraps grants) k scope same =
      after-life
        (start_sealed_epoch codec crypto dir user workspace epoch prior_wrap wraps grants k) k scope
        (λ k' answer.
          start_sealed_epoch-life codec crypto dir user workspace epoch prior_wrap wraps grants k
            scope {k' = k'} answer)
  run_event-life (revoke user workspace) k scope same =
      revoke_sealed_access-life user workspace k scope
  run_event-life (reset confirm user) k scope same =
      after-life (reset_keys confirm user k) k scope
        (λ k' answer. reset_keys-life confirm user k scope {k' = k'} same answer)

-- Whatever requests reach the server, in whatever order, as long as none of them is a reset by the
-- last person who was handed the workspace's key, the newest key of the workspace goes through the
-- life that is specified: the first key is key 1, a key may fall due and then stays due, and it is
-- only ever replaced by the next one, which is not due.
pub keys_follow_life :
    (codec : Codec) (crypto : Crypto) (es : List Event) (k : Keys) (workspace : String)
    → keeps_key codec crypto workspace es k ≡ true
    → KeyLife (key_state k.epochs workspace) (key_state (run codec crypto es k).epochs workspace)
unfolding run keeps_key
keys_follow_life codec crypto [] k workspace kept = unchanged (key_state k.epochs workspace)
keys_follow_life codec crypto (e ∷ es) k workspace kept =
    followed (run_event-life codec crypto e k workspace (ground (arith, kept))) (
      keys_follow_life codec crypto es (run_event codec crypto e k) workspace
        (ground (arith, kept)))

-- What is off limits stays so through the life of a key.
abbrev is_past : ℕ → Option KeyState → Bool
is_past n none = false
is_past n (some s) = ltb n s.number || (eqb s.number n && s.due)

KeyLife-past :
    (n : ℕ) {s t : Option KeyState} → KeyLife s t → is_past n s ≡ true → is_past n t ≡ true
KeyLife-past n (unchanged s) past = past
KeyLife-past n begun past = cc
KeyLife-past n (fell_due s) past = ground arith
KeyLife-past n (replaced s) past = ground arith
KeyLife-past n (followed first rest) past = KeyLife-past n rest (KeyLife-past n first past)

off-past : (n : ℕ) (o : Option KeyEpoch) → off_limits n o ≡ is_past n (state_of o)
off-past n none = refl
off-past n (some c) = refl

life-off :
    (n : ℕ) (s t : List KeyEpoch) (scope : String)
    → KeyLife (key_state s scope) (key_state t scope)
    → off_limits n (current_epoch s scope) ≡ true
    → off_limits n (current_epoch t scope) ≡ true
unfolding key_state
life-off n s t scope life off =
    off-past n (current_epoch t scope)
    ∙ KeyLife-past n life (sym (off-past n (current_epoch s scope)) ∙ off)

run-off :
    (codec : Codec) (crypto : Crypto) (es : List Event) (k : Keys) (scope : String) (n : ℕ)
    → keeps_key codec crypto scope es k ≡ true
    → off_limits n (current_epoch k.epochs scope) ≡ true
    → off_limits n (current_epoch (run codec crypto es k).epochs scope) ≡ true
run-off codec crypto es k scope n kept off =
    life-off n k.epochs (run codec crypto es k).epochs scope
      (keys_follow_life codec crypto es k scope kept) off

-- What is off limits is refused.
write-off :
    (k : Keys) (scope user : String) (n key_epoch : ℕ)
    → off_limits n (current_epoch k.epochs scope) ≡ true
    → check_sealed_write k scope user key_epoch ≡ none
    → n < key_epoch
unfolding check_sealed_write
write-off k scope user n key_epoch off passes = elim (Option-cases (current_epoch k.epochs scope)) [
  | inl nothing ↦ ground (arith, nothing)
  | inr (c, newest) ↦ ground (arith, newest)
]

-- Once a member who held a workspace's key is removed, a write of a sealed record in the
-- workspace, by whomever and after whatever further requests but a reset that deletes the key, is
-- accepted only under a key that is newer than the one that was current at the removal.
pub revoked_member_key_unused :
    (codec : Codec) (crypto : Crypto) (k : Keys) (removed workspace : String) (current : KeyEpoch)
    (later : List Event) (writer : String) (key_epoch : ℕ)
    → current_epoch k.epochs workspace ≡ some current
    → any (is_users workspace removed) k.wraps ≡ true
    → keeps_key codec crypto workspace later (revoke_sealed_access removed workspace k) ≡ true
    → check_sealed_write
        (run codec crypto later (revoke_sealed_access removed workspace k))
        workspace
        writer
        key_epoch
      ≡ none
    → current.epoch < key_epoch
unfolding revoke_sealed_access
revoked_member_key_unused codec crypto k removed workspace current later writer key_epoch newest
      held kept passes =
    let marked = mark-sets k.epochs workspace {c = current} newest in
    let off =
      run-off codec crypto later (revoke_sealed_access removed workspace k) workspace current.epoch
        kept (ground (arith, marked)) in
    write-off (run codec crypto later (revoke_sealed_access removed workspace k)) workspace writer
      current.epoch key_epoch off passes

module _ (codec : Codec) (crypto : Crypto) where
  -- An accepted removal of a device marks what it held a copy of as due.
  append_device-off :
      (owner : String) (e : SealedEntry) (k : Keys) (workspace : String) (current : KeyEpoch)
      {k' : Keys}
      → same e.action sealed_action_remove ≡ true
      → current_epoch k.epochs workspace ≡ some current
      → any (λ (w : KeyWrap). w.scope == workspace) (keep (is_devices owner e.target_seq) k.wraps)
        ≡ true
      → append_device codec crypto owner e k ≡ allowed k'
      → off_limits current.epoch (current_epoch k'.epochs workspace) ≡ true
  unfolding append_device withdraw_device_wraps
  append_device-off owner e k workspace current {k'} removes newest held h =
      let marked =
        mark_all-sets (keep (is_devices owner e.target_seq) k.wraps) k.epochs workspace
          {c = current} newest held in
      let withdrawn : k'.epochs
          ≡ mark_all_due (keep (is_devices owner e.target_seq) k.wraps) k.epochs =
        ground (arith, removes) in
      rw withdrawn marked

  -- What is off limits stays so while further entries are stored.
  append_sealed_devices-off :
      (dir : Directory) (owner : String) (e : SealedEntry) (entries : List SealedEntry)
      (wraps : List SealedWrap) (k : Keys) (workspace : String) (current : KeyEpoch) {k' : Keys}
      → same e.action sealed_action_remove ≡ true
      → current_epoch k.epochs workspace ≡ some current
      → any (λ (w : KeyWrap). w.scope == workspace) (keep (is_devices owner e.target_seq) k.wraps)
        ≡ true
      → append_sealed_devices codec crypto dir owner (e ∷ entries) wraps k ≡ allowed k'
      → off_limits current.epoch (current_epoch k'.epochs workspace) ≡ true
  unfolding append_devices
  append_sealed_devices-off dir owner e entries wraps k workspace current {k'} removes newest held
        h =
      let (m, appended, kept) =
        append_sealed_devices-parts codec crypto dir owner (e ∷ entries) wraps k {k' = k'} h in
      let (first, removed, rest) =
        allowed_parts (append_device codec crypto owner e k) _ appended in
      let off =
        append_device-off owner e k workspace current {k' = first} removes newest held removed in
      rw kept (
        life-off current.epoch first.epochs m.epochs workspace
          (append_devices-life codec crypto owner entries first workspace {k' = m} rest) off)

-- Once a request that first removes a device of a person's list is accepted, and the device held a
-- copy of a workspace's key, a write of a sealed record in the workspace, by whomever and after
-- whatever further requests, as long as none of them is a reset by the last person who was handed
-- the workspace's key, is accepted only under a key that is newer than the one that was current
-- at the removal.
pub removed_device_key_unused :
    (codec : Codec) (crypto : Crypto) (dir : Directory) (owner : String) (e : SealedEntry)
    (entries : List SealedEntry) (wraps : List SealedWrap) (k k' : Keys) (workspace : String)
    (current : KeyEpoch) (later : List Event) (writer : String) (key_epoch : ℕ)
    → same e.action sealed_action_remove ≡ true
    → current_epoch k.epochs workspace ≡ some current
    → any (λ (w : KeyWrap). w.scope == workspace) (keep (is_devices owner e.target_seq) k.wraps)
      ≡ true
    → append_sealed_devices codec crypto dir owner (e ∷ entries) wraps k ≡ allowed k'
    → keeps_key codec crypto workspace later k' ≡ true
    → check_sealed_write (run codec crypto later k') workspace writer key_epoch ≡ none
    → current.epoch < key_epoch
removed_device_key_unused codec crypto dir owner e entries wraps k k' workspace current later writer
      key_epoch removes newest held h kept passes =
    let off =
      append_sealed_devices-off codec crypto dir owner e entries wraps k workspace current {k' = k'}
        removes newest held h in
    write-off (run codec crypto later k') workspace writer current.epoch key_epoch
      (run-off codec crypto later k' workspace current.epoch kept off) passes

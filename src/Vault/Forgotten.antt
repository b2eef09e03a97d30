-- ===== src/Vault/Forgotten.antt =====
-- What a reset does to the newest key of a workspace (`resetSealing` of routes/sealed.go).
use revoked.Prelude.{
  none, true, Option-cases, ◌≡◌, refl, sym, subst, String, Bool, false, not, ◌&&◌, List, [], ◌∷◌,
  ◌==◌, eq_iff, contains, keep, arith, Bool-cases, inl, inr, allowed, same_answer, past_guard,
}
use revoked.Vault.{KeyEpoch, Keys, current_epoch, mark_rotation_due, sealed_invalid}
use revoked.Vault.Life.{KeyLife, unchanged, followed, key_state, mark-life}
use revoked.Vault.Epochs.{current-map}
use revoked.Vault.Reset.{
  has_holder, reset_workspace_key, reset_workspace_keys, reset_account_keys, without_person,
  held_workspaces, reset_keys, sealed_reset_confirmation,
}

-- Deleting the keys of another workspace changes none of this one's.
current-keep :
    (es : List KeyEpoch) (scope gone : String)
    → (gone == scope) ≡ false
    → current_epoch (keep (λ e. not (e.scope == gone)) es) scope ≡ current_epoch es scope
unfolding current_epoch
current-keep [] scope gone other = refl
current-keep (e ∷ es) scope gone other = elim (Bool-cases (e.scope == gone)) [
  | inl its ↦
      let apart =
        subst (λ (v : String). (v == scope) ≡ false) (sym ((eq_iff e.scope gone).0 its)) other in
      ground (arith, its, apart, current-keep es scope gone)
  | inr kept ↦ ground (arith, kept, current-keep es scope gone)
]

-- Nobody but the person who resets was handed the workspace's key.
abbrev is_ended : List String → Keys → String → Bool
is_ended ws k scope = contains ws scope && not (has_holder k.wraps scope)

-- A key that lasts is of another workspace than one that nobody else was handed the key of.
ended_is_other :
    (w : String) (ws : List String) (k : Keys) (scope : String)
    → is_ended (w ∷ ws) k scope ≡ false
    → has_holder k.wraps w ≡ false
    → (w == scope) ≡ false
ended_is_other w ws k scope lasts gone = elim (Bool-cases (w == scope)) [
  | inl its ↦
      let nobody =
        subst (λ (v : String). has_holder k.wraps v ≡ false) ((eq_iff w scope).0 its) gone in
      ground (arith, nobody, its)
  | inr other ↦ other
]

reset_workspace_keys-life :
    (ws : List String) (k : Keys) (scope : String)
    → is_ended ws k scope ≡ false
    → KeyLife (key_state k.epochs scope) (key_state (reset_workspace_keys ws k).epochs scope)
unfolding reset_workspace_keys reset_workspace_key key_state
reset_workspace_keys-life [] k scope lasts = unchanged (key_state k.epochs scope)
reset_workspace_keys-life (w ∷ ws) k scope lasts = elim (Bool-cases (has_holder k.wraps w)) [
  | inl held ↦
      rw (reset_workspace_keys, reset_workspace_key, held)
        (followed (mark-life k.epochs scope w) (
          reset_workspace_keys-life ws (record k { epochs = mark_rotation_due k.epochs w }) scope
            (ground (arith, lasts))))
  | inr gone ↦
      let other = ended_is_other w ws k scope lasts gone in
      rw (reset_workspace_keys, reset_workspace_key, gone, ← current-keep k.epochs scope w other)
        (reset_workspace_keys-life ws
          (record k { epochs = keep (λ e. not (e.scope == w)) k.epochs }) scope
          (ground (arith, lasts, other)))
]

pub reset_keys-life :
    (confirm user : String) (k : Keys) (scope : String) {k' : Keys}
    → (confirm == sealed_reset_confirmation
        && contains (held_workspaces user k.wraps) scope
        && not (has_holder (keep (λ w. not (w.user == user)) k.wraps) scope))
      ≡ false
    → reset_keys confirm user k ≡ allowed k'
    → KeyLife (key_state k.epochs scope) (key_state k'.epochs scope)
unfolding reset_keys
reset_keys-life confirm user k scope {k'} lasts h =
    let (agreed, h) = past_guard (not (confirm == sealed_reset_confirmation)) sealed_invalid _ h in
    subst (λ (l : Keys). KeyLife (key_state k.epochs scope) (key_state l.epochs scope))
      (same_answer h)
      (reset_workspace_keys-life (held_workspaces user k.wraps)
        (reset_account_keys user (without_person user k)) scope (ground (arith, agreed, lasts)))

mark-none :
    (es : List KeyEpoch) (scope marked : String)
    → current_epoch es scope ≡ none
    → current_epoch (mark_rotation_due es marked) scope ≡ none
unfolding mark_rotation_due
mark-none es scope marked none_yet = elim (Option-cases (current_epoch es marked)) [
  | inl nothing ↦ rw (mark_rotation_due, nothing) none_yet
  | inr (c, newest) ↦
      rw (mark_rotation_due, newest, current-map es scope marked c.epoch, none_yet) refl
]

keep-none :
    (es : List KeyEpoch) (scope gone : String)
    → current_epoch es scope ≡ none
    → current_epoch (keep (λ e. not (e.scope == gone)) es) scope ≡ none
unfolding current_epoch
keep-none [] scope gone none_yet = refl
keep-none (e ∷ es) scope gone none_yet = ground (arith, keep-none es scope gone)

keep_own-none :
    (es : List KeyEpoch) (scope : String)
    → current_epoch (keep (λ e. not (e.scope == scope)) es) scope ≡ none
unfolding current_epoch
keep_own-none [] scope = refl
keep_own-none (e ∷ es) scope = ground (arith, keep_own-none es scope)

reset_workspace_key-none :
    (w : String) (k : Keys) (scope : String)
    → current_epoch k.epochs scope ≡ none
    → current_epoch (reset_workspace_key w k).epochs scope ≡ none
unfolding reset_workspace_key
reset_workspace_key-none w k scope none_yet =
    ground (arith, mark-none k.epochs scope w none_yet, keep-none k.epochs scope w none_yet)

reset_workspace_keys-none :
    (ws : List String) (k : Keys) (scope : String)
    → current_epoch k.epochs scope ≡ none
    → current_epoch (reset_workspace_keys ws k).epochs scope ≡ none
unfolding reset_workspace_keys
reset_workspace_keys-none [] k scope none_yet = none_yet
reset_workspace_keys-none (w ∷ ws) k scope none_yet =
    reset_workspace_keys-none ws (reset_workspace_key w k) scope
      (reset_workspace_key-none w k scope none_yet)

reset_workspace_key-wraps : (w : String) (k : Keys) → (reset_workspace_key w k).wraps ≡ k.wraps
unfolding reset_workspace_key
reset_workspace_key-wraps w k = ground arith

reset_workspace_keys-ends :
    (ws : List String) (k : Keys) (scope : String)
    → is_ended ws k scope ≡ true
    → current_epoch (reset_workspace_keys ws k).epochs scope ≡ none
unfolding reset_workspace_keys
reset_workspace_keys-ends [] k scope ended = cc
reset_workspace_keys-ends (w ∷ ws) k scope ended = elim (Bool-cases (w == scope)) [
  | inl its ↦
      let same = (eq_iff w scope).0 its in
      let nobody : has_holder k.wraps w ≡ false =
        subst (λ (v : String). has_holder k.wraps v ≡ false) (sym same) (ground (arith, ended)) in
      reset_workspace_keys-none ws (reset_workspace_key w k) scope (
        rw (reset_workspace_key, nobody)
          (subst (λ (v : String). current_epoch (keep (λ e. not (e.scope == w)) k.epochs) v ≡ none)
            same (keep_own-none k.epochs w)))
  | inr other ↦
      reset_workspace_keys-ends ws (reset_workspace_key w k) scope
        (rw (reset_workspace_key-wraps w k) (ground (arith, other, ended)))
]

-- A confirmed reset by a person who was handed a workspace's key, which nobody else was handed any
-- key of, leaves the workspace without a key.
pub reset_keys-ends :
    (confirm user : String) (k : Keys) (scope : String) {k' : Keys}
    → contains (held_workspaces user k.wraps) scope ≡ true
    → has_holder (keep (λ w. not (w.user == user)) k.wraps) scope ≡ false
    → reset_keys confirm user k ≡ allowed k'
    → current_epoch k'.epochs scope ≡ none
unfolding reset_keys
reset_keys-ends confirm user k scope {k'} held nobody h =
    let (agreed, h) = past_guard (not (confirm == sealed_reset_confirmation)) sealed_invalid _ h in
    subst (λ (l : Keys). current_epoch l.epochs scope ≡ none) (same_answer h)
      (reset_workspace_keys-ends (held_workspaces user k.wraps)
        (reset_account_keys user (without_person user k)) scope (ground (arith, held, nobody)))

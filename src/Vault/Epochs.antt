-- ===== src/Vault/Epochs.antt =====
-- The newest epoch of a scope (services/sealed.go), and what the requests do to it.
use revoked.Prelude.{
  ℕ, ◌≡◌, refl, String, Bool, true, false, ◌&&◌, ◌||◌, Option, none, some, List, [], ◌∷◌, ◌==◌,
  eq_iff, eqb, ltb, map, any, arith, Bool-cases, Option-cases, inl, inr,
}
use revoked.Vault.{
  KeyEpoch, KeyWrap, current_epoch, due_at, mark_rotation_due, mark_all_due, has_epoch,
}

pub current-scope :
    (es : List KeyEpoch) (scope : String) {c : KeyEpoch}
    → current_epoch es scope ≡ some c
    → (c.scope == scope) ≡ true
unfolding current_epoch
current-scope [] scope h = cc
current-scope (e ∷ es) scope {c} h = elim (Option-cases (current_epoch es scope)) [
  | inl none_later ↦ ground (arith, none_later)
  | inr (f, later) ↦
      let scoped = current-scope es scope {c = f} later in ground (arith, later, scoped)
]

pub current-has_epoch :
    (es : List KeyEpoch) (scope : String) {c : KeyEpoch}
    → current_epoch es scope ≡ some c
    → has_epoch es scope c.epoch ≡ true
unfolding current_epoch has_epoch
current-has_epoch [] scope h = cc
current-has_epoch (e ∷ es) scope {c} h = elim (Option-cases (current_epoch es scope)) [
  | inl none_later ↦ ground (arith, none_later)
  | inr (f, later) ↦
      let known = current-has_epoch es scope {c = f} later in ground (arith, later, known)
]

abbrev pub due_option : String → ℕ → Option KeyEpoch → Option KeyEpoch
due_option scope n none = none
due_option scope n (some e) = some (due_at scope n e)

-- Marking an epoch due changes no order.
pub current-map :
    (es : List KeyEpoch) (scope marked : String) (n : ℕ)
    → current_epoch (map (due_at marked n) es) scope ≡ due_option marked n (current_epoch es scope)
unfolding current_epoch
current-map [] scope marked n = refl
current-map (e ∷ es) scope marked n = elim (Option-cases (current_epoch es scope)) [
  | inl none_later ↦ ground (arith, none_later, current-map es scope marked n)
  | inr (f, later) ↦ ground (arith, later, current-map es scope marked n)
]

-- Nothing is written under the epoch `n` or an older one: the newest is past it, or it is the newest
-- and due.
abbrev pub off_limits : ℕ → Option KeyEpoch → Bool
off_limits n none = false
off_limits n (some c) = ltb n c.epoch || (eqb c.epoch n && c.rotation_due)

due_option-off :
    (o : Option KeyEpoch) (marked : String) (m n : ℕ)
    → off_limits n o ≡ true
    → off_limits n (due_option marked m o) ≡ true
due_option-off none marked m n h = h
due_option-off (some c) marked m n h = ground arith

pub mark-off :
    (es : List KeyEpoch) (scope marked : String) (n : ℕ)
    → off_limits n (current_epoch es scope) ≡ true
    → off_limits n (current_epoch (mark_rotation_due es marked) scope) ≡ true
unfolding mark_rotation_due
mark-off es scope marked n h = elim (Option-cases (current_epoch es marked)) [
  | inl nothing ↦ rw (nothing, mark_rotation_due) h
  | inr (c, newest) ↦
      rw (mark_rotation_due, newest, current-map es scope marked c.epoch)
        (due_option-off (current_epoch es scope) marked c.epoch n h)
]

-- A scope whose newest epoch is marked due is off limits up to it.
pub mark-sets :
    (es : List KeyEpoch) (scope : String) {c : KeyEpoch}
    → current_epoch es scope ≡ some c
    → off_limits c.epoch (current_epoch (mark_rotation_due es scope) scope) ≡ true
unfolding mark_rotation_due
mark-sets es scope {c} newest =
    let scoped = current-scope es scope {c = c} newest in
    rw (mark_rotation_due, newest, current-map es scope scope c.epoch, newest)
      (ground (arith, scoped))

pub mark_all-off :
    (ws : List KeyWrap) (es : List KeyEpoch) (scope : String) (n : ℕ)
    → off_limits n (current_epoch es scope) ≡ true
    → off_limits n (current_epoch (mark_all_due ws es) scope) ≡ true
mark_all-off [] es scope n h = h
mark_all-off (w ∷ ws) es scope n h =
    mark_all-off ws (mark_rotation_due es w.scope) scope n (mark-off es scope w.scope n h)

mark-epoch :
    (es : List KeyEpoch) (scope marked : String) {c : KeyEpoch}
    → current_epoch es scope ≡ some c
    → (d : KeyEpoch) × (current_epoch (mark_rotation_due es marked) scope ≡ some d)
      × (d.epoch ≡ c.epoch)
unfolding mark_rotation_due
mark-epoch es scope marked {c} newest = elim (Option-cases (current_epoch es marked)) [
  | inl nothing ↦ rw (nothing, mark_rotation_due) (c, newest, refl)
  | inr (m, at) ↦
      rw (mark_rotation_due, at, current-map es scope marked m.epoch, newest)
        (due_at marked m.epoch c, refl, ground arith)
]

-- Where some row is of the scope, its newest epoch is off limits.
pub mark_all-sets :
    (ws : List KeyWrap) (es : List KeyEpoch) (scope : String) {c : KeyEpoch}
    → current_epoch es scope ≡ some c
    → any (λ (w : KeyWrap). w.scope == scope) ws ≡ true
    → off_limits c.epoch (current_epoch (mark_all_due ws es) scope) ≡ true
mark_all-sets [] es scope newest h = cc
mark_all-sets (w ∷ ws) es scope {c} newest h = elim (Bool-cases (w.scope == scope)) [
  | inl its ↦
      let same = (eq_iff w.scope scope).0 its in
      mark_all-off ws (mark_rotation_due es w.scope) scope c.epoch
        (rw same (mark-sets es scope {c = c} newest))
  | inr other ↦
      let (d, at, same) = mark-epoch es scope w.scope {c = c} newest in
      rw (← same)
        (mark_all-sets ws (mark_rotation_due es w.scope) scope {c = d} at (ground (arith, other)))
]

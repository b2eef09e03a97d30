-- ===== src/Vault/Life.antt =====
-- What a workspace's key promises, whatever requests come but a reset that deletes it: the first
-- key is key 1, a key may fall due, and is replaced by the next one, which is not due
-- (services/sealed.go, routes/sealed.go).
use revoked.Prelude.{
  ℕ, ◌+◌, ◌≡◌, subst, String, Bool, true, false, ◌&&◌, Option, none, some, List, [], ◌∷◌, ◌==◌,
  eq_iff, eqb, ltb, arith, Bool-cases, Option-cases, inl, inr,
}
use revoked.Members.{Member}
use revoked.Vault.{KeyEpoch, KeyWrap, Keys, current_epoch, mark_rotation_due, mark_all_due}
use revoked.Vault.Requests.{new_epoch, may_start}
use revoked.Vault.Epochs.{current-map, due_option}

-- The number of the newest key, and whether it is due.
pub record KeyState : Type 0 where
  pub number : ℕ
  pub due : Bool

pub data KeyLife : Option KeyState → Option KeyState → Type 0 where
  unchanged : (s : Option KeyState) → KeyLife s s
  begun : KeyLife none (some (record { number = 1; due = false }))
  fell_due : (s : KeyState) → KeyLife (some s) (some (record s { due = true }))
  replaced :
      (s : KeyState) → KeyLife (some s) (some (record { number = s.number + 1; due = false }))
  followed : {a b c : Option KeyState} → KeyLife a b → KeyLife b c → KeyLife a c

abbrev pub state_of : Option KeyEpoch → Option KeyState
state_of none = none
state_of (some e) = some (record { number = e.epoch; due = e.rotation_due })

unfoldable pub key_state : List KeyEpoch → String → Option KeyState
unfolding current_epoch
key_state epochs scope = state_of (current_epoch epochs scope)

due_option-life :
    (o : Option KeyEpoch) (marked : String) (m : ℕ)
    → KeyLife (state_of o) (state_of (due_option marked m o))
due_option-life none marked m = unchanged none
due_option-life (some c) marked m = elim (Bool-cases (c.scope == marked && eqb c.epoch m)) [
  | inl its ↦ rw its (fell_due (record { number = c.epoch; due = c.rotation_due }))
  | inr other ↦ rw other (unchanged (state_of (some c)))
]

pub mark-life :
    (es : List KeyEpoch) (scope marked : String)
    → KeyLife (key_state es scope) (key_state (mark_rotation_due es marked) scope)
unfolding mark_rotation_due key_state
mark-life es scope marked = elim (Option-cases (current_epoch es marked)) [
  | inl nothing ↦ rw (mark_rotation_due, nothing) (unchanged (key_state es scope))
  | inr (c, newest) ↦
      rw (mark_rotation_due, newest, key_state, key_state, current-map es scope marked c.epoch)
        (due_option-life (current_epoch es scope) marked c.epoch)
]

pub mark_all-life :
    (ws : List KeyWrap) (es : List KeyEpoch) (scope : String)
    → KeyLife (key_state es scope) (key_state (mark_all_due ws es) scope)
mark_all-life [] es scope = unchanged (key_state es scope)
mark_all-life (w ∷ ws) es scope =
    followed (mark-life es scope w.scope) (mark_all-life ws (mark_rotation_due es w.scope) scope)

-- A key that may be started is the next one.
may_start-first :
    (k : Keys) (member : Member) (user workspace : String) (epoch : ℕ) (prior_wrap : String)
    → may_start k member user workspace epoch prior_wrap ≡ none
    → current_epoch k.epochs workspace ≡ none
    → epoch ≡ 1
may_start-first k member user workspace epoch prior_wrap may nothing = ground (arith, nothing)

may_start-next :
    (k : Keys) (member : Member) (user workspace : String) (epoch : ℕ) (prior_wrap : String)
    {c : KeyEpoch}
    → may_start k member user workspace epoch prior_wrap ≡ none
    → current_epoch k.epochs workspace ≡ some c
    → epoch ≡ c.epoch + 1
may_start-next k member user workspace epoch prior_wrap may newest = ground (arith, newest)

next-not_before : (n : ℕ) → ltb (n + 1) n ≡ false
next-not_before n = ground arith

pub new_epoch-life :
    (k : Keys) (member : Member) (user workspace : String) (epoch : ℕ) (prior_wrap : String)
    (scope : String)
    → may_start k member user workspace epoch prior_wrap ≡ none
    → KeyLife
        (key_state k.epochs scope)
        (key_state (new_epoch workspace epoch prior_wrap user ∷ k.epochs) scope)
unfolding current_epoch key_state
new_epoch-life k member user workspace epoch prior_wrap scope may =
    elim (Bool-cases (workspace == scope)) [
      | inr other ↦ rw other (unchanged (state_of (current_epoch k.epochs scope)))
      | inl its ↦
          subst
            (λ other.
              (workspace == other) ≡ true
              → KeyLife (key_state k.epochs other)
                  (key_state (new_epoch workspace epoch prior_wrap user ∷ k.epochs) other))
            ((eq_iff workspace scope).0 its)
            (λ itself. elim (Option-cases (current_epoch k.epochs workspace)) [
              | inl nothing ↦
                  rw
                    (
                      itself,
                      nothing,
                      may_start-first k member user workspace epoch prior_wrap may nothing,
                    )
                    begun
              | inr (c, newest) ↦
                  rw
                    (
                      itself,
                      newest,
                      may_start-next k member user workspace epoch prior_wrap {c = c} may newest,
                      next-not_before c.epoch,
                    )
                    (replaced (record { number = c.epoch; due = c.rotation_due }))
            ])
            its
    ]

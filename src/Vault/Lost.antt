-- ===== src/Vault/Lost.antt =====
-- What a reset deletes of the vault (`resetSealing` of routes/sealed.go).
use revoked.Prelude.{
  ℕ, zero, suc, ◌≡◌, refl, ap, subst, fun_ext, ◌∙◌, String, Bool, true, false, not, ◌&&◌, List, [],
  ◌∷◌, ◌==◌, eq_iff, all, contains, keep, length, arith, Bool-cases, inl, inr,
}
use revoked.Vault.{KeyWrap}
use revoked.Vault.Records.{VaultRecord, is_sealed}
use revoked.Vault.Reset.{
  Tables, reset_workspace_key, has_holder, is_sealed_in, goes_with, delete_sealed, reset_workspace,
  reset_workspaces,
}

keep-keep {ℓ} :
    {A : Type ℓ} (p q r : A → Bool) (xs : List A)
    → ((x : A) → (q x && p x) ≡ r x)
    → keep p (keep q xs) ≡ keep r xs
keep-keep p q r [] both = refl
keep-keep p q r (x ∷ xs) both = ground (arith, both x, keep-keep p q r xs both)

pub reset_workspace-wraps :
    (w : String) (t : Tables) → (reset_workspace w t).keys.wraps ≡ t.keys.wraps
unfolding reset_workspace
reset_workspace-wraps w t = ground arith

-- A record whose value nobody can open once the copies are gone.
abbrev pub is_lost : List String → List KeyWrap → VaultRecord → Bool
is_lost workspaces wraps r =
    is_sealed r && contains workspaces r.workspace && not (has_holder wraps r.workspace)

-- A workspace whose key somebody else holds loses nothing.
held-lost :
    (w : String) (ws : List String) (wraps : List KeyWrap) (r : VaultRecord)
    → has_holder wraps w ≡ true
    → is_lost ws wraps r ≡ is_lost (w ∷ ws) wraps r
held-lost w ws wraps r held = elim (Bool-cases (w == r.workspace)) [
  | inl its ↦
      let holds =
        subst (λ (v : String). has_holder wraps v ≡ true) ((eq_iff w r.workspace).0 its) held in
      ground (arith, holds)
  | inr other ↦ ground (arith, other)
]

unheld-lost :
    (w : String) (ws : List String) (wraps : List KeyWrap) (r : VaultRecord)
    → has_holder wraps w ≡ false
    → (not (is_sealed_in w r) && not (is_lost ws wraps r)) ≡ not (is_lost (w ∷ ws) wraps r)
unheld-lost w ws wraps r gone = elim (Bool-cases (w == r.workspace)) [
  | inl its ↦
      let none_holds =
        subst (λ (v : String). has_holder wraps v ≡ false) ((eq_iff w r.workspace).0 its) gone in
      ground (arith, none_holds, its)
  | inr other ↦ ground (arith, other)
]

-- A record that reads through none.
abbrev pub is_own : VaultRecord → Bool
is_own r = r.alias_of == ""

pub own-goes :
    (n : ℕ) (w : String) (rows : List VaultRecord) (r : VaultRecord)
    → is_own r ≡ true
    → goes_with n w rows r ≡ is_sealed_in w r
own-goes zero w rows r own = refl
own-goes (suc n) w rows r own = ground (arith, own)

pub sealed-goes :
    (n : ℕ) (w : String) (rows : List VaultRecord) (r : VaultRecord)
    → is_sealed_in w r ≡ true
    → goes_with n w rows r ≡ true
sealed-goes zero w rows r its = its
sealed-goes (suc n) w rows r its = ground (arith, its)

-- Of the records that read through none, those are left that are not lost.
unheld-own :
    (n : ℕ) (w : String) (ws : List String) (wraps : List KeyWrap) (rows : List VaultRecord)
    (r : VaultRecord)
    → has_holder wraps w ≡ false
    → (not (goes_with n w rows r) && (is_own r && not (is_lost ws wraps r)))
      ≡ (is_own r && not (is_lost (w ∷ ws) wraps r))
unheld-own n w ws wraps rows r gone = elim (Bool-cases (is_own r)) [
  | inl own ↦ rw (own, own-goes n w rows r own, ← unheld-lost w ws wraps r gone) refl
  | inr alias ↦ ground (arith, alias)
]

pub reset_workspaces-own :
    (ws : List String) (t : Tables)
    → keep is_own (reset_workspaces ws t).records
      ≡ keep (λ r. is_own r && not (is_lost ws t.keys.wraps r)) t.records
unfolding reset_workspaces reset_workspace reset_workspace_key delete_sealed
reset_workspaces-own [] t = ap (λ f. keep f t.records) (fun_ext (λ r. ground arith))
reset_workspaces-own (w ∷ ws) t = elim (Bool-cases (has_holder t.keys.wraps w)) [
  | inl held ↦
      rw (reset_workspaces, reset_workspace, reset_workspace_key, held)
        (reset_workspaces-own ws _
          ∙ ap (λ f. keep f t.records)
              (fun_ext (λ r. ap (λ b. is_own r && not b) (held-lost w ws t.keys.wraps r held))))
  | inr gone ↦
      rw (reset_workspaces, reset_workspace, reset_workspace_key, delete_sealed, gone)
        (reset_workspaces-own ws _
          ∙ keep-keep (λ r. is_own r && not (is_lost ws t.keys.wraps r))
              (λ r. not (goes_with (length t.records) w t.records r))
              (λ r. is_own r && not (is_lost (w ∷ ws) t.keys.wraps r)) t.records
              (λ r. unheld-own (length t.records) w ws t.keys.wraps t.records r gone))
]

-- No record that is left is lost.
abbrev pub none_lost : List String → List KeyWrap → List VaultRecord → Bool
none_lost ws wraps rows = all (λ r. not (is_lost ws wraps r)) rows

none_lost-first : (wraps : List KeyWrap) (rows : List VaultRecord) → none_lost [] wraps rows ≡ true
none_lost-first wraps [] = refl
none_lost-first wraps (r ∷ rows) = ground (arith, none_lost-first wraps rows)

-- What one more workspace that is not lost, or whose records went, leaves.
none_lost-held :
    (w : String) (ws : List String) (wraps : List KeyWrap) (rows : List VaultRecord)
    → has_holder wraps w ≡ true
    → none_lost (w ∷ ws) wraps rows ≡ none_lost ws wraps rows
none_lost-held w ws wraps [] held = refl
none_lost-held w ws wraps (r ∷ rows) held =
    ground (arith, held-lost w ws wraps r held, none_lost-held w ws wraps rows held)

all-keep_any :
    (p q : VaultRecord → Bool) (rows : List VaultRecord)
    → all p rows ≡ true
    → all p (keep q rows) ≡ true
all-keep_any p q [] h = refl
all-keep_any p q (r ∷ rows) h = ground (arith, all-keep_any p q rows)

pub reset_workspaces-drops :
    (ws : List String) (t : Tables) (p : VaultRecord → Bool)
    → all p t.records ≡ true
    → all p (reset_workspaces ws t).records ≡ true
unfolding reset_workspaces reset_workspace delete_sealed
reset_workspaces-drops [] t p h = h
reset_workspaces-drops (w ∷ ws) t p h = elim (Bool-cases (has_holder t.keys.wraps w)) [
  | inl held ↦ reset_workspaces-drops ws (reset_workspace w t) p (rw (reset_workspace, held) h)
  | inr gone ↦ reset_workspaces-drops ws (reset_workspace w t) p (
      rw (reset_workspace, gone)
        (all-keep_any p (λ r. not (goes_with (length t.records) w t.records r)) t.records h))
]

all-both :
    (p q r : VaultRecord → Bool) (rows : List VaultRecord)
    → ((x : VaultRecord) → (p x && q x) ≡ r x)
    → all p rows ≡ true
    → all q rows ≡ true
    → all r rows ≡ true
all-both p q r [] both hp hq = refl
all-both p q r (x ∷ rows) both hp hq = ground (arith, both x, all-both p q r rows both)

none_sealed-keep :
    (n : ℕ) (w : String) (all_rows rows : List VaultRecord)
    → all (λ r. not (is_sealed_in w r)) (keep (λ r. not (goes_with n w all_rows r)) rows) ≡ true
none_sealed-keep n w all_rows [] = refl
none_sealed-keep n w all_rows (r ∷ rows) = elim (Bool-cases (is_sealed_in w r)) [
  | inl its ↦ ground (arith, sealed-goes n w all_rows r its, none_sealed-keep n w all_rows rows)
  | inr other ↦ ground (arith, none_sealed-keep n w all_rows rows)
]

pub reset_workspaces-none_lost :
    (ws : List String) (t : Tables)
    → none_lost ws t.keys.wraps (reset_workspaces ws t).records ≡ true
unfolding reset_workspaces reset_workspace reset_workspace_key delete_sealed
reset_workspaces-none_lost [] t = none_lost-first t.keys.wraps t.records
reset_workspaces-none_lost (w ∷ ws) t =
    let wraps = t.keys.wraps in
    let next = reset_workspace w t in
    let left = (reset_workspaces ws next).records in
    let rest : none_lost ws wraps left ≡ true =
      subst (λ wraps. none_lost ws wraps left ≡ true) (reset_workspace-wraps w t)
        (reset_workspaces-none_lost ws next) in
    elim (Bool-cases (has_holder wraps w)) [
      | inl held ↦ none_lost-held w ws wraps left held ∙ rest
      | inr gone ↦
          let plain = λ (r : VaultRecord). not (is_sealed_in w r) in
          let none_sealed : all plain next.records ≡ true =
            rw (reset_workspace, delete_sealed, gone)
              (none_sealed-keep (length t.records) w t.records t.records) in
          all-both plain (λ r. not (is_lost ws wraps r)) (λ r. not (is_lost (w ∷ ws) wraps r)) left
            (λ r. unheld-lost w ws wraps r gone) (reset_workspaces-drops ws next plain none_sealed)
            rest
    ]

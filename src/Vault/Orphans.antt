-- ===== src/Vault/Orphans.antt =====
-- The aliases of the records that a reset deletes go with them (`resetSealing` of routes/sealed.go,
-- migrations/000025_add_record_aliases.go).
use revoked.Prelude.{
  ℕ, ◌≡◌, refl, sym, subst, String, Bool, true, false, not, ◌&&◌, ◌||◌, List, [], ◌∷◌, ◌==◌, eq_iff,
  all, any, contains, keep, length, arith, Bool-cases, inl, inr,
}
use revoked.Vault.Records.{VaultRecord}
use revoked.Vault.Reset.{
  Tables, has_holder, is_sealed_in, goes_with, delete_sealed, reset_workspace, reset_workspaces,
}
use revoked.Vault.Lost.{
  is_own, own-goes, sealed-goes, reset_workspace-wraps, reset_workspaces-drops,
}

-- No record reads through the one with the id.
abbrev pub not_alias_of : String → VaultRecord → Bool
not_alias_of id r = r.alias_of == "" || not (id == r.alias_of)

-- A sealed record of the workspace with the id, which reads through none.
abbrev pub is_parent : String → String → VaultRecord → Bool
is_parent id workspace q = q.id == id && is_own q && is_sealed_in workspace q

parent-goes :
    (n : ℕ) (v : String) (all_rows rows : List VaultRecord) (id : String)
    → any (is_parent id v) rows ≡ true
    → any (λ p. p.id == id && goes_with n v all_rows p) rows ≡ true
parent-goes n v all_rows [] id h = cc
parent-goes n v all_rows (q ∷ rows) id h = elim (Bool-cases (is_sealed_in v q)) [
  | inl its ↦ ground (arith, sealed-goes n v all_rows q its, parent-goes n v all_rows rows id)
  | inr other ↦ ground (arith, other, parent-goes n v all_rows rows id)
]

alias-goes :
    (v : String) (rows : List VaultRecord) (r : VaultRecord) (id : String)
    → any (is_parent id v) rows ≡ true
    → not_alias_of id r ≡ false
    → goes_with (length rows) v rows r ≡ true
alias-goes v [] r id parent reads = cc
alias-goes v (q ∷ rows) r id parent reads =
    let named : id ≡ r.alias_of = (eq_iff id r.alias_of).0 (ground (arith, reads)) in
    let parents =
      subst
        (λ (i : String).
          any (λ p. p.id == i && goes_with (length rows) v (q ∷ rows) p) (q ∷ rows) ≡ true)
        named (parent-goes (length rows) v (q ∷ rows) (q ∷ rows) id parent) in
    ground (arith, parents, reads)

aliases-go :
    (v : String) (all_rows rows : List VaultRecord) (id : String)
    → any (is_parent id v) all_rows ≡ true
    → all (not_alias_of id) (keep (λ r. not (goes_with (length all_rows) v all_rows r)) rows) ≡ true
aliases-go v all_rows [] id parent = refl
aliases-go v all_rows (r ∷ rows) id parent = elim (Bool-cases (not_alias_of id r)) [
  | inl apart ↦ ground (arith, apart, aliases-go v all_rows rows id parent)
  | inr reads ↦
      ground (arith, alias-goes v all_rows r id parent reads, aliases-go v all_rows rows id parent)
]

-- The deletions in another workspace leave the record.
parent-stays :
    (n : ℕ) (w v : String) (all_rows rows : List VaultRecord) (id : String)
    → (w == v) ≡ false
    → any (is_parent id v) rows ≡ true
    → any (is_parent id v) (keep (λ r. not (goes_with n w all_rows r)) rows) ≡ true
parent-stays n w v all_rows [] id apart h = cc
parent-stays n w v all_rows (q ∷ rows) id apart h = elim (Bool-cases (is_parent id v q)) [
  | inl found ↦
      let own : is_own q ≡ true = ground (arith, found) in
      let here : v ≡ q.workspace = (eq_iff v q.workspace).0 (ground (arith, found)) in
      let away : (w == q.workspace) ≡ false = subst (λ (x : String). (w == x) ≡ false) here apart in
      ground (arith, found, away, own-goes n w all_rows q own)
  | inr other ↦ ground (arith, other, parent-stays n w v all_rows rows id apart)
]

pub aliases-lost :
    (ws : List String) (t : Tables) (v id : String)
    → contains ws v ≡ true
    → has_holder t.keys.wraps v ≡ false
    → any (is_parent id v) t.records ≡ true
    → all (not_alias_of id) (reset_workspaces ws t).records ≡ true
unfolding reset_workspaces reset_workspace delete_sealed
aliases-lost [] t v id visited nobody parent = cc
aliases-lost (w ∷ ws) t v id visited nobody parent =
    let next = reset_workspace w t in
    let still : has_holder next.keys.wraps v ≡ false =
      subst (λ wraps. has_holder wraps v ≡ false) (sym (reset_workspace-wraps w t)) nobody in
    elim (Bool-cases (w == v)) [
      | inl its ↦
          let same = (eq_iff w v).0 its in
          let gone : has_holder t.keys.wraps w ≡ false =
            subst (λ (x : String). has_holder t.keys.wraps x ≡ false) (sym same) nobody in
          let parent_here =
            subst (λ (x : String). any (is_parent id x) t.records ≡ true) (sym same) parent in
          reset_workspaces-drops ws next (not_alias_of id) (
            rw (reset_workspace, delete_sealed, gone)
              (aliases-go w t.records t.records id parent_here))
      | inr apart ↦ elim (Bool-cases (has_holder t.keys.wraps w)) [
        | inl held ↦
            aliases-lost ws next v id (ground (arith, visited, apart)) still
              (rw (reset_workspace, held) parent)
        | inr gone ↦ aliases-lost ws next v id (ground (arith, visited, apart)) still (
            rw (reset_workspace, delete_sealed, gone)
              (parent-stays (length t.records) w v t.records t.records id apart parent))
      ]
    ]

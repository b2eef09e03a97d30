-- ===== src/Sealed/Chain/Unique.antt =====
-- A list of util/sealedchain.go has at most one live recovery key, and at most one live entry for
-- each passkey credential.
use revoked.Prelude.{
  and-true_iff, ℕ, ◌≡◌, refl, sym, ◌∙◌, subst, Bool, true, false, Option, none, some, List, [], ◌∷◌,
  eqb, arith, Bool-cases, inl, inr,
}
use revoked.Sealed.Context.{Bytes}
use revoked.Sealed.Chain.{
  SealedChainEntry, SealedChain, empty, Crypto, same, sealed_action_add, sealed_kind_device,
  sealed_kind_recovery, sealed_kind_passkey, in_removed, load, next_seq, entry, is_live, live,
  find_live, passes, is_recovery, is_passkey, live_recovery, live_passkey, is_none, acceptable,
}
use revoked.Sealed.Chain.Valid.{
  same-eq, add_not_remove, IsValid, entry-load, is_live-load, Built, start, grow, append-parts,
  Built-IsValid,
}
use revoked.Sealed.Chain.Live.{live_complete}

-- At most one live entry passes the test.
abbrev pub Unique : (SealedChainEntry → Bool) → SealedChain → Type 0
Unique t c =
    (a b : ℕ)
    → is_live c a ≡ true
    → passes t (entry c a) ≡ true
    → is_live c b ≡ true
    → passes t (entry c b) ≡ true
    → a ≡ b

find_live-none :
    (c : SealedChain) (t : SealedChainEntry → Bool) (seqs : List ℕ) (a : ℕ)
    → is_none (find_live c t seqs) ≡ true
    → in_removed a seqs ≡ true
    → passes t (entry c a) ≡ false
unfolding find_live
find_live-none c t [] a h m = cc
find_live-none c t (s ∷ seqs) a h m = elim (Bool-cases (passes t (entry c s))) [
  | inl p ↦ absurd (some-is_none (entry c s) p (ground arith))
  | inr q ↦ ground (arith, find_live-none c t seqs a)
]
  where
    some-is_none : (o : Option SealedChainEntry) → passes t o ≡ true → is_none o ≡ true → ⊥
    some-is_none none p n = cc
    some-is_none (some x) p n = cc

-- If nothing live passes a test, or the new entry does not, at most one entry still passes it.
Unique-empty : (t : SealedChainEntry → Bool) → Unique t empty
unfolding is_live
Unique-empty t a b la pa lb pb = ground arith

older :
    (t : SealedChainEntry → Bool) (c : SealedChain) (e : SealedChainEntry) (a : ℕ)
    → IsValid c
    → eqb a (next_seq c) ≡ false
    → is_live (load c e) a ≡ true
    → passes t (entry (load c e) a) ≡ true
    → (is_live c a ≡ true) × (passes t (entry c a) ≡ true)
older t c e a v old l p = (
  ground (arith, is_live-load c e a v),
  subst (λ o. passes t o ≡ true) (entry-load c e a ∙ (rw old)) p,
)

newer :
    (t : SealedChainEntry → Bool) (c : SealedChain) (e : SealedChainEntry) (a : ℕ)
    → IsValid c
    → eqb a (next_seq c) ≡ true
    → is_live (load c e) a ≡ true
    → passes t (entry (load c e) a) ≡ true
    → (same e.action sealed_action_add ≡ true) × (t e ≡ true)
newer t c e a v new l p = (
  ground (arith, is_live-load c e a v),
  (let at : entry (load c e) a ≡ some e = entry-load c e a ∙ rw new in
      subst (λ o. passes t o ≡ true) at p),
)

load-Unique :
    (t : SealedChainEntry → Bool) (c : SealedChain) (e : SealedChainEntry)
    → IsValid c
    → (same e.action sealed_action_add ≡ true
        → t e ≡ true
        → (a : ℕ) → is_live c a ≡ true
        → passes t (entry c a) ≡ false)
    → Unique t c
    → Unique t (load c e)
load-Unique t c e v fresh u a b la pa lb pb = elim (Bool-cases (eqb a (next_seq c))) [
  | inl na ↦ elim (Bool-cases (eqb b (next_seq c))) [
    | inl nb ↦ ground arith
    | inr ob ↦
        let (added, tested) = newer t c e a v na la pa in
        let (lived, passed) = older t c e b v ob lb pb in cc (fresh added tested b lived)
  ]
  | inr oa ↦ elim (Bool-cases (eqb b (next_seq c))) [
    | inl nb ↦
        let (added, tested) = newer t c e b v nb lb pb in
        let (lived, passed) = older t c e a v oa la pa in cc (fresh added tested a lived)
    | inr ob ↦
        let (la', pa') = older t c e a v oa la pa in
        let (lb', pb') = older t c e b v ob lb pb in u a b la' pa' lb' pb'
  ]
]

recovery_not_device :
    (k : Bytes) → same k sealed_kind_recovery ≡ true → same k sealed_kind_device ≡ false
recovery_not_device k h = rw (same-eq k sealed_kind_recovery h)

passkey_not_others :
    (k : Bytes)
    → same k sealed_kind_passkey ≡ true
    → (same k sealed_kind_device ≡ false) × (same k sealed_kind_recovery ≡ false)
passkey_not_others k h = rw (same-eq k sealed_kind_passkey h) (refl, refl)

module _ (crypto : Crypto) where
  recovery_fresh :
      (c : SealedChain) (e : SealedChainEntry)
      → acceptable crypto c e ≡ true
      → same e.action sealed_action_add ≡ true
      → is_recovery e ≡ true
      → is_none (live_recovery c) ≡ true
  unfolding acceptable
  recovery_fresh c e h a r = ground (arith, add_not_remove e.action, recovery_not_device e.kind)

  passkey_fresh :
      (c : SealedChain) (e : SealedChainEntry)
      → acceptable crypto c e ≡ true
      → same e.action sealed_action_add ≡ true
      → same e.kind sealed_kind_passkey ≡ true
      → is_none (live_passkey c e.credential_id) ≡ true
  unfolding acceptable
  passkey_fresh c e h a r = ground (arith, add_not_remove e.action, passkey_not_others e.kind)

  load-fresh_recovery :
      (c : SealedChain) (e : SealedChainEntry)
      → IsValid c
      → acceptable crypto c e ≡ true
      → Unique is_recovery c
      → Unique is_recovery (load c e)
  unfolding live_recovery
  load-fresh_recovery c e v h u =
      load-Unique is_recovery c e v
        (λ added tested a lived.
          find_live-none c is_recovery (live c) a (recovery_fresh c e h added tested)
            (live_complete c a v lived))
        u

  load-fresh_passkey :
      (id : Bytes) (c : SealedChain) (e : SealedChainEntry)
      → IsValid c
      → acceptable crypto c e ≡ true
      → Unique (is_passkey id) c
      → Unique (is_passkey id) (load c e)
  unfolding live_passkey
  load-fresh_passkey id c e v h u =
      load-Unique (is_passkey id) c e v
        (λ added tested a lived.
          let (kind, named) =
            (and-true_iff (same e.kind sealed_kind_passkey) (same e.credential_id id)).0 tested in
          let fresh =
            subst (λ i. is_none (live_passkey c i) ≡ true) (same-eq e.credential_id id named)
              (passkey_fresh c e h added kind) in
          find_live-none c (is_passkey id) (live c) a fresh (live_complete c a v lived))
        u

  -- A list that `Append` built has at most one live recovery key.
  pub one_recovery : {c : SealedChain} → Built crypto c → Unique is_recovery c
  one_recovery start = Unique-empty is_recovery
  one_recovery (grow {c} {d} e b h) =
      let (fine, same_list) = append-parts crypto c e {d = d} h in
      subst (Unique is_recovery) (sym same_list)
        (load-fresh_recovery c e (Built-IsValid crypto b) fine (one_recovery b))

  -- A list that `Append` built has at most one live entry for each passkey credential.
  pub one_passkey : {c : SealedChain} (id : Bytes) → Built crypto c → Unique (is_passkey id) c
  one_passkey id start = Unique-empty (is_passkey id)
  one_passkey id (grow {c} {d} e b h) =
      let (fine, same_list) = append-parts crypto c e {d = d} h in
      subst (Unique (is_passkey id)) (sym same_list)
        (load-fresh_passkey id c e (Built-IsValid crypto b) fine (one_passkey id b))

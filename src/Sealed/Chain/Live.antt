-- ===== src/Sealed/Chain/Live.antt =====
-- The entries of a list of util/sealedchain.go that are live: at most 32, at most one recovery key,
-- and at most one entry for each passkey.
use revoked.Prelude.{
  ◌⊎◌, ℕ, zero, suc, ◌+◌, ◌-◌, ◌≤◌, ◌<◌, ◌≡◌, refl, ap, sym, subst, true, false, none, List, [],
  ◌∷◌, ◌++◌, length, if◌then◌else◌, arith, All, Bool-cases, inl, inr,
}
use revoked.Sealed.Chain.{
  SealedChainEntry, SealedChain, empty, Crypto, same, sealed_action_add, in_removed, load, next_seq,
  is_live, live_among, live, acceptable, append, max_sealed_live_entries,
}
use revoked.Sealed.Chain.Valid.{
  add_not_remove, Numbered, IsValid, is_live-load, live_bounds, Built, start, grow, append-parts,
  Built-IsValid, acceptable-seq,
}

-- A bound on how many entries are live, entry by entry.
length-live_among-le :
    (c d : SealedChain) (n : ℕ) (es : List SealedChainEntry)
    → ((seq : ℕ) → seq ≤ n → is_live d seq ≡ true → is_live c seq ≡ true)
    → All (λ e. e.seq ≤ n) es
    → length (live_among d es) ≤ length (live_among c es)
unfolding live_among
length-live_among-le c d n [] h a = omega arith
length-live_among-le c d n (e ∷ es) h (here, a) =
    ground (arith, length-live_among-le c d n es h a, h e.seq here)

length-live_among-append :
    (d : SealedChain) (es : List SealedChainEntry) (e : SealedChainEntry)
    → length (live_among d (es ++ e ∷ []))
      ≡ length (live_among d es) + (if is_live d e.seq then 1 else 0)
unfolding live_among
length-live_among-append d [] e = ground arith
length-live_among-append d (x ∷ es) e = ground (arith, length-live_among-append d es e)

Numbered-le :
    (k n : ℕ) (es : List SealedChainEntry)
    → k + length es ≤ n + 1
    → Numbered k es
    → All (λ e. e.seq ≤ n) es
Numbered-le k n [] h m = tt
Numbered-le k n (e ∷ es) h (here, m) = (omega arith, Numbered-le (suc k) n es (omega arith) m)

length-live-load :
    (c : SealedChain) (e : SealedChainEntry)
    → length (live (load c e))
      ≡ length (live_among (load c e) c.entries) + (if is_live (load c e) e.seq then 1 else 0)
unfolding live load
length-live-load c e = length-live_among-append (load c e) c.entries e

length-live-empty : (c : SealedChain) → length c.entries ≡ 0 → length (live c) ≡ 0
unfolding live live_among
length-live-empty c h = go c.entries refl
  where
    go : (es : List SealedChainEntry) → c.entries ≡ es → length (live_among c c.entries) ≡ 0
    go [] e = rw e
    go (x ∷ es) e = absurd (omega (arith, ap length e))

older-live :
    (c : SealedChain) (e : SealedChainEntry) (seq : ℕ)
    → IsValid c
    → seq ≤ length c.entries
    → is_live (load c e) seq ≡ true
    → is_live c seq ≡ true
unfolding next_seq
older-live c e seq v h l = ground (arith, is_live-load c e seq v)

older-bound :
    (c : SealedChain) (e : SealedChainEntry)
    → IsValid c
    → length (live_among (load c e) c.entries) ≤ length (live c)
unfolding live
older-bound c e v =
    length-live_among-le c (load c e) (length c.entries) c.entries (λ seq. older-live c e seq v)
      (Numbered-le 1 (length c.entries) c.entries (omega arith) v.numbered)

newest-live :
    (c : SealedChain) (e : SealedChainEntry)
    → IsValid c
    → e.seq ≡ length c.entries + 1
    → is_live (load c e) e.seq ≡ same e.action sealed_action_add
unfolding next_seq
newest-live c e v h = ground (arith, is_live-load c e e.seq v)

live_among_complete :
    (c : SealedChain) (k : ℕ) (es : List SealedChainEntry) (i : ℕ)
    → Numbered k es
    → i < length es
    → is_live c (k + i) ≡ true
    → in_removed (k + i) (live_among c es) ≡ true
unfolding live_among
live_among_complete c k [] i n h l = absurd (omega arith)
live_among_complete c k (e ∷ es) zero (here, n) h l =
    let at : e.seq ≡ k + 0 = omega arith in ground arith
live_among_complete c k (e ∷ es) (suc i) (here, n) h l =
    let next : suc k + i ≡ k + suc i = omega arith in
    let rest = live_among_complete c (suc k) es i n (omega arith) (rw next l) in ground arith

-- The list of live numbers holds each of them.
pub live_complete :
    (c : SealedChain) (seq : ℕ) → IsValid c → is_live c seq ≡ true → in_removed seq (live c) ≡ true
unfolding live
live_complete c seq v l =
    let (low, high) = live_bounds c seq l in
    let at : 1 + (seq - 1) ≡ seq = omega arith in
    let found = live_among_complete c 1 c.entries (seq - 1) v.numbered (omega arith) (rw at l) in
    rw at at found

is_live-nil : (c : SealedChain) (seq : ℕ) → IsValid c → live c ≡ [] → is_live c seq ≡ false
is_live-nil c seq v h = elim (Bool-cases (is_live c seq)) [
  | inl l ↦ cc (live_complete c seq v l, ap (in_removed seq) h)
  | inr dead ↦ dead
]

module _ (crypto : Crypto) where
  acceptable-room :
      (c : SealedChain) (e : SealedChainEntry)
      → acceptable crypto c e ≡ true
      → same e.action sealed_action_add ≡ true
      → (length c.entries ≡ 0) ⊎ (length (live c) < max_sealed_live_entries)
  unfolding acceptable
  acceptable-room c e h a = ground (arith, add_not_remove e.action)

  load-bounded :
      (c : SealedChain) (e : SealedChainEntry)
      → IsValid c
      → acceptable crypto c e ≡ true
      → length (live c) ≤ max_sealed_live_entries
      → length (live (load c e)) ≤ max_sealed_live_entries
  load-bounded c e v h bound = ground (
    arith,
    length-live-load c e,
    older-bound c e v,
    newest-live c e v (acceptable-seq crypto c e h),
    acceptable-room c e h,
    length-live-empty c,
  )

  -- A list that `Append` built never has more than 32 live entries.
  pub live_bounded : {c : SealedChain} → Built crypto c → length (live c) ≤ max_sealed_live_entries
  live_bounded start = omega (arith, length-live-empty empty refl)
  live_bounded (grow {c} {d} e b h) =
      let (fine, same_list) = append-parts crypto c e {d = d} h in
      subst (λ x. length (live x) ≤ max_sealed_live_entries) (sym same_list)
        (load-bounded c e (Built-IsValid crypto b) fine (live_bounded b))

  -- A list that `Append` built, with entries of which none is live, takes no further entry.
  pub dead_list_refuses :
      {c : SealedChain} (e : SealedChainEntry)
      → Built crypto c
      → 0 < length c.entries
      → live c ≡ []
      → append crypto c e ≡ none
  unfolding append acceptable
  dead_list_refuses {c} e b some_entries none_live =
      ground (arith, is_live-nil c e.signer_seq (Built-IsValid crypto b) none_live)

-- ===== src/Sealed/Chain/Valid.antt =====
-- What every list built by `Append` of util/sealedchain.go has: numbered entries, removals of
-- earlier entries, and how one entry changes which entries are live.
use revoked.Prelude.{
  subst, ℕ, zero, suc, ◌+◌, ◌-◌, ◌≤◌, ◌<◌, ◌≡◌, refl, sym, true, false, not, ◌&&◌, ◌||◌, none, some,
  List, [], ◌∷◌, ◌++◌, length, get_elem?, eqb, if◌then◌else◌, arith, All, length-append, Bool-cases,
  inl, inr,
}
use revoked.Sealed.Context.{Bytes}
use revoked.Sealed.Chain.{
  SealedChainEntry, SealedChain, empty, Crypto, same, sealed_action_add, sealed_action_remove,
  in_removed, load, next_seq, entry, is_live, acceptable, append,
}

pub same-eq : (xs ys : Bytes) → same xs ys ≡ true → xs ≡ ys
same-eq [] [] h = refl
same-eq [] (y ∷ ys) h = cc
same-eq (x ∷ xs) [] h = cc
same-eq (x ∷ xs) (y ∷ ys) h = ground (arith, same-eq xs ys)

pub add_not_remove :
    (a : Bytes) → same a sealed_action_add ≡ true → same a sealed_action_remove ≡ false
add_not_remove a h = rw (same-eq a sealed_action_add h)

-- The entries from the one with number `k` on.
abbrev pub Numbered : ℕ → List SealedChainEntry → Type 0
Numbered k [] = Unit
Numbered k (e ∷ es) = (e.seq ≡ k) × Numbered (suc k) es

pub record IsValid (c : SealedChain) : Type 0 where
  pub numbered : Numbered 1 c.entries
  pub earlier : All (λ s. s ≤ length c.entries) c.removed

pub IsValid-empty : IsValid empty
IsValid-empty = record { numbered = tt; earlier = tt }

Numbered-append :
    (k : ℕ) (es : List SealedChainEntry) (e : SealedChainEntry)
    → Numbered k es
    → e.seq ≡ k + length es
    → Numbered k (es ++ e ∷ [])
Numbered-append k [] e n h = (omega arith, tt)
Numbered-append k (x ∷ es) e (here, n) h = (here, Numbered-append (suc k) es e n (omega arith))

All-le_mono : (m n : ℕ) (ss : List ℕ) → m ≤ n → All (λ s. s ≤ m) ss → All (λ s. s ≤ n) ss
All-le_mono m n [] h a = tt
All-le_mono m n (s ∷ ss) h (here, a) = (omega arith, All-le_mono m n ss h a)

in_removed-later : (n : ℕ) (ss : List ℕ) → All (λ s. s ≤ n) ss → in_removed (n + 1) ss ≡ false
in_removed-later n [] a = refl
in_removed-later n (s ∷ ss) (here, a) = ground (arith, in_removed-later n ss a)

get_elem?-append :
    (es : List SealedChainEntry) (e : SealedChainEntry) (i : ℕ)
    → get_elem? (es ++ e ∷ []) i ≡ (if eqb i (length es) then some e else get_elem? es i)
get_elem?-append [] e zero = refl
get_elem?-append [] e (suc i) = ground arith
get_elem?-append (x ∷ es) e zero = ground arith
get_elem?-append (x ∷ es) e (suc i) = ground (arith, get_elem?-append es e i)

get_elem?-past : (es : List SealedChainEntry) (i : ℕ) → length es ≤ i → get_elem? es i ≡ none
get_elem?-past [] i h = refl
get_elem?-past (x ∷ es) zero h = absurd (omega arith)
get_elem?-past (x ∷ es) (suc i) h = get_elem?-past es i (omega arith)

pub entry-load :
    (c : SealedChain) (e : SealedChainEntry) (seq : ℕ)
    → entry (load c e) seq ≡ (if eqb seq (next_seq c) then some e else entry c seq)
unfolding entry load next_seq
entry-load c e seq =
    ground (arith, length-append c.entries (e ∷ []), get_elem?-append c.entries e (seq - 1))

removed-load :
    (c : SealedChain) (e : SealedChainEntry) (seq : ℕ)
    → in_removed seq (load c e).removed
      ≡ (same e.action sealed_action_remove && eqb e.target_seq seq || in_removed seq c.removed)
unfolding load
removed-load c e seq = ground arith

in_removed-next :
    (c : SealedChain) (seq : ℕ)
    → IsValid c
    → eqb seq (next_seq c) ≡ true
    → in_removed seq c.removed ≡ false
unfolding next_seq
in_removed-next c seq v h =
    let at : seq ≡ length c.entries + 1 = ground arith in
    rw at (in_removed-later (length c.entries) c.removed v.earlier)

-- An added entry is live; a removal takes out its target; all else stays as it was.
pub is_live-load :
    (c : SealedChain) (e : SealedChainEntry) (seq : ℕ)
    → IsValid c
    → is_live (load c e) seq ≡ (
        if eqb seq (next_seq c)
        then same e.action sealed_action_add
        else is_live c seq && not (same e.action sealed_action_remove && eqb e.target_seq seq))
unfolding is_live
is_live-load c e seq v = elim (Bool-cases (eqb seq (next_seq c))) [
  | inl newest ↦ rw newest (
      rw (entry-load c e seq, removed-load c e seq, newest)
        (ground (arith, add_not_remove e.action, in_removed-next c seq v newest)))
  | inr older ↦ rw older (rw (entry-load c e seq, removed-load c e seq, older) (ground arith))
]

-- Only the numbers of entries are live.
pub live_bounds :
    (c : SealedChain) (seq : ℕ) → is_live c seq ≡ true → (0 < seq) × (seq ≤ length c.entries)
unfolding is_live entry
live_bounds c seq h = ground arith

module _ (crypto : Crypto) where
  -- What `acceptable` has checked of an entry.
  pub acceptable-seq :
      (c : SealedChain) (e : SealedChainEntry)
      → acceptable crypto c e ≡ true
      → e.seq ≡ length c.entries + 1
  unfolding acceptable
  acceptable-seq c e h = ground arith

  pub acceptable-target :
      (c : SealedChain) (e : SealedChainEntry)
      → acceptable crypto c e ≡ true
      → same e.action sealed_action_remove ≡ true
      → is_live c e.target_seq ≡ true
  unfolding acceptable
  acceptable-target c e h r = ground (arith, add_not_remove e.action)

  load-IsValid :
      (c : SealedChain) (e : SealedChainEntry)
      → IsValid c
      → acceptable crypto c e ≡ true
      → IsValid (load c e)
  unfolding load
  load-IsValid c e v h = record {
    numbered = Numbered-append 1 c.entries e v.numbered (omega (arith, acceptable-seq c e h));
    earlier = elim (Bool-cases (same e.action sealed_action_remove)) [
      | inl r ↦
          let target = live_bounds c e.target_seq (acceptable-target c e h r) in
          rw r (omega (arith, grown), All-le_mono _ _ c.removed (omega (arith, grown)) v.earlier)
      | inr kept ↦ rw kept (All-le_mono _ _ c.removed (omega (arith, grown)) v.earlier)
    ];
  }
    where
      grown : length (c.entries ++ e ∷ []) ≡ length c.entries + 1
      grown = length-append c.entries (e ∷ [])

  -- The lists that `Append` builds.
  pub data Built : SealedChain → Type 0 where
    start : Built empty
    grow :
        {c d : SealedChain} (e : SealedChainEntry) → Built c → append crypto c e ≡ some d → Built d

  pub append-parts :
      (c : SealedChain) (e : SealedChainEntry) {d : SealedChain}
      → append crypto c e ≡ some d
      → (acceptable crypto c e ≡ true) × (d ≡ load c e)
  unfolding append
  append-parts c e h = ground arith

  pub Built-IsValid : {c : SealedChain} → Built c → IsValid c
  Built-IsValid start = IsValid-empty
  Built-IsValid (grow {c} {d} e b h) =
      let (fine, same_list) = append-parts c e {d = d} h in
      subst IsValid (sym same_list) (load-IsValid c e (Built-IsValid b) fine)

  -- In a list that `Append` built, an accepted entry changes exactly this about who is live: its
  -- own number is live if it adds, the target is no longer live if it removes, and all else stays.
  pub is_live-append :
      {c : SealedChain} (e : SealedChainEntry) {d : SealedChain} (seq : ℕ)
      → Built c
      → append crypto c e ≡ some d
      → is_live d seq ≡ (
          if eqb seq (next_seq c)
          then same e.action sealed_action_add
          else is_live c seq && not (same e.action sealed_action_remove && eqb e.target_seq seq))
  is_live-append {c} e {d} seq b h =
      let (fine, same_list) = append-parts c e {d = d} h in
      rw same_list (is_live-load c e seq (Built-IsValid b))

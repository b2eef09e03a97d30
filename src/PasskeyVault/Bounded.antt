-- ===== src/PasskeyVault/Bounded.antt =====
-- The loops of `put` (routes/passkeys.go) end, and bound what the server holds.
use revoked.Prelude.{
  ◌≡◌, refl, ℕ, zero, suc, ◌≤◌, ◌<◌, String, Bool, true, false, not, List, [], ◌∷◌, ◌==◌, arith,
  eq_iff, leb, ltb, ◌||◌, sym, ◌∙◌, any, length, keep, ◌⊎◌, inl, inr, Bool-cases,
}
use revoked.PasskeyVault.{
  Entry, Oldest, under, delete, is_good, find_oldest, oldest_hash, older, make_room, put,
}

module _ {ℓ} {Value : Type ℓ} where
  pub length-keep :
      (p : Entry Value → Bool) (items : List (Entry Value)) → length (keep p items) ≤ length items
  length-keep p [] = omega arith
  length-keep p (e ∷ es) = ground (arith, length-keep p es)

  -- Deleting what is there makes the map smaller.
  length-delete :
      (h : String) (items : List (Entry Value))
      → any (under h) items ≡ true
      → length (delete h items) < length items
  length-delete h [] there = cc
  length-delete h (e ∷ es) there =
      ground (arith, length-delete h es, length-keep (λ x. not (under h x)) es)

  under-first :
      (h : String) (e : Entry Value) (es : List (Entry Value))
      → h ≡ e.hash
      → any (under h) (e ∷ es) ≡ true
  under-first h e es same = ground (arith, same, eq_iff e.hash h, sym same)

  older-taken :
      (best : Oldest) (e : Entry Value)
      → (best.oldest == "" || ltb e.expires best.at) ≡ true
      → (older best e).oldest ≡ e.hash
  older-taken best e taken = rw taken refl

  older-left :
      (best : Oldest) (e : Entry Value)
      → (best.oldest == "" || ltb e.expires best.at) ≡ false
      → (older best e).oldest ≡ best.oldest
  older-left best e left = rw left refl

  -- The loop keeps the entry that it has, or takes one of the list.
  find_oldest-found :
      (best : Oldest) (items : List (Entry Value))
      → ((find_oldest best items).oldest ≡ best.oldest)
        ⊎ (any (under (find_oldest best items).oldest) items ≡ true)
  unfolding find_oldest
  find_oldest-found best [] = inl refl
  find_oldest-found best (e ∷ es) = elim (find_oldest-found (older best e) es) [
    | inl same ↦ elim (Bool-cases (best.oldest == "" || ltb e.expires best.at)) [
      | inl taken ↦ inr (
          under-first (find_oldest (older best e) es).oldest e es (same ∙ older-taken best e taken))
      | inr left ↦ inl (same ∙ older-left best e left)
    ]
    | inr there ↦ inr (ground (arith, there))
  ]

  oldest_hash-found :
      (e : Entry Value) (es : List (Entry Value))
      → any (under (oldest_hash (e ∷ es))) (e ∷ es) ≡ true
  unfolding find_oldest
  oldest_hash-found e es =
      elim (find_oldest-found (record { oldest = e.hash; at = e.expires }) es) [
        | inl same ↦ under-first (oldest_hash (e ∷ es)) e es same
        | inr there ↦ ground (arith, there)
      ]

  make_room-below :
      (limit rounds : ℕ) (items : List (Entry Value))
      → 0 < limit
      → length items ≤ rounds
      → length (make_room limit rounds items) < limit
  unfolding make_room
  make_room-below limit zero items pos enough = ground arith
  make_room-below limit (suc rounds) [] pos enough = ground arith
  make_room-below limit (suc rounds) (e ∷ es) pos enough =
      let there = oldest_hash-found e es in
      let fewer = length-delete (oldest_hash (e ∷ es)) (e ∷ es) there in
      let rest = make_room-below limit rounds (delete (oldest_hash (e ∷ es)) (e ∷ es)) pos in
      elim (Bool-cases (leb limit (length (e ∷ es)))) [
        | inl full ↦ rw full (rest (omega (arith, fewer, enough)))
        | inr some_room ↦ rw some_room (ground arith)
      ]

  -- The loop of `put` that makes room ends for every map, and after it the map holds at most the
  -- limit, the new entry included.
  pub put-IsBounded :
      (hash_token : String → String) (limit : ℕ) (key : String) (value : Value) (ttl now : ℕ)
      (items : List (Entry Value))
      → 0 < limit
      → length (put hash_token limit key value ttl now items) ≤ limit
  unfolding put
  put-IsBounded hash_token limit key value ttl now items pos =
      let good = keep (is_good now) items in
      let below = make_room-below limit (length good) good pos (omega arith) in
      let room = make_room limit (length good) good in
      let less = length-keep (λ e. not (under (hash_token key) e)) room in
      omega (arith, below, less)

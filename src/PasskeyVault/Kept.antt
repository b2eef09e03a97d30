-- ===== src/PasskeyVault/Kept.antt =====
-- What a one-time key gives (routes/passkeys.go).
use revoked.Prelude.{
  ◌≡◌, refl, ℕ, zero, suc, ◌+◌, String, Bool, false, Option, none, some, not, List, [], ◌∷◌, ◌==◌,
  arith, eq_iff, subst, inl, inr, leb, ltb, length, keep, All, Bool-cases, if◌then◌else◌,
}
use revoked.PasskeyVault.{
  Entry, under, delete, lookup, is_good, still_good, make_room, put, peek, take, oldest_hash,
}

module _ {ℓ} {Value : Type ℓ} where
  pub lookup-delete : (h : String) (items : List (Entry Value)) → lookup h (delete h items) ≡ none
  lookup-delete h [] = refl
  lookup-delete h (e ∷ es) = ground (arith, lookup-delete h es)

  -- Deleting keeps an absent key absent.
  pub lookup-delete_absent :
      (h k : String) (items : List (Entry Value))
      → lookup k items ≡ none
      → lookup k (delete h items) ≡ none
  lookup-delete_absent h k [] absent = refl
  lookup-delete_absent h k (e ∷ es) absent = ground (arith, lookup-delete_absent h k es)

  pub lookup-keep_absent :
      (p : Entry Value → Bool) (k : String) (items : List (Entry Value))
      → lookup k items ≡ none
      → lookup k (keep p items) ≡ none
  lookup-keep_absent p k [] absent = refl
  lookup-keep_absent p k (e ∷ es) absent = ground (arith, lookup-keep_absent p k es)

  pub lookup-make_room_absent :
      (limit rounds : ℕ) (k : String) (items : List (Entry Value))
      → lookup k items ≡ none
      → lookup k (make_room limit rounds items) ≡ none
  unfolding make_room
  lookup-make_room_absent limit zero k items absent = absent
  lookup-make_room_absent limit (suc rounds) k items absent =
      let fewer = delete (oldest_hash items) items in
      let gone = lookup-delete_absent (oldest_hash items) k items absent in
      let rest = lookup-make_room_absent limit rounds k fewer gone in ground (arith, rest, absent)

  pub lookup-put_absent :
      (hash_token : String → String) (limit : ℕ) (key : String) (value : Value) (ttl now : ℕ)
      (k : String) (items : List (Entry Value))
      → (hash_token key == k) ≡ false
      → lookup k items ≡ none
      → lookup k (put hash_token limit key value ttl now items) ≡ none
  unfolding put
  lookup-put_absent hash_token limit key value ttl now k items other absent =
      let good = keep (is_good now) items in
      let room = make_room limit (length good) good in
      let gone = lookup-delete_absent (hash_token key) k room (
        lookup-make_room_absent limit (length good) k good
          (lookup-keep_absent (is_good now) k items absent)) in
      ground (arith, other, gone)

  pub lookup-take_absent :
      (hash_token : String → String) (key : String) (now : ℕ) (k : String)
      (items : List (Entry Value))
      → lookup k items ≡ none
      → lookup k (take hash_token key now items).1 ≡ none
  unfolding take
  lookup-take_absent hash_token key now k items absent =
      ground (arith, absent, lookup-delete_absent (hash_token key) k items absent)

  -- A key that is presented is spent, right or wrong.
  pub lookup-take_spent :
      (hash_token : String → String) (key : String) (now : ℕ) (items : List (Entry Value))
      → (key == "") ≡ false
      → lookup (hash_token key) (take hash_token key now items).1 ≡ none
  unfolding take
  lookup-take_spent hash_token key now items named = rw named (lookup-delete (hash_token key) items)

  -- What was put is there under its key, and only until its time is over; taking it leaves nothing.
  pub take-put :
      (hash_token : String → String) (limit : ℕ) (key : String) (value : Value) (ttl now later : ℕ)
      (items : List (Entry Value))
      → (key == "") ≡ false
      → let after = put hash_token limit key value ttl now items in
        let taken = take hash_token key later after in
        (taken.0 ≡ (if ltb later (now + ttl) then some value else none))
        × (peek hash_token key later after ≡ taken.0)
        × (take hash_token key later taken.1).0 ≡ none
  unfolding put take peek
  take-put hash_token limit key value ttl now later items named =
      let gone = lookup-delete (hash_token key) (put hash_token limit key value ttl now items) in
      (
        ground (arith, named, eq_iff (hash_token key) (hash_token key)),
        ground (arith, named, eq_iff (hash_token key) (hash_token key)),
        ground (arith, named, gone),
      )

-- What holds of every value that is kept.
module _ {ℓ κ} {Value : Type ℓ} (P : Value → Type κ) where
  abbrev pub Every : List (Entry Value) → Type κ
  Every items = All (λ e. P e.value) items

  Every-keep :
      (p : Entry Value → Bool) (items : List (Entry Value)) → Every items → Every (keep p items)
  Every-keep p [] h = h
  Every-keep p (e ∷ es) (now, later) = elim (Bool-cases (p e)) [
    | inl kept ↦ rw kept (now, Every-keep p es later)
    | inr dropped ↦ rw dropped (Every-keep p es later)
  ]

  Every-make_room :
      (limit rounds : ℕ) (items : List (Entry Value))
      → Every items
      → Every (make_room limit rounds items)
  unfolding make_room
  Every-make_room limit zero items h = h
  Every-make_room limit (suc rounds) items h = elim (Bool-cases (leb limit (length items))) [
    | inl full ↦
        let fewer = delete (oldest_hash items) items in
        rw full (
          Every-make_room limit rounds fewer
            (Every-keep (λ e. not (under (oldest_hash items) e)) items h))
    | inr room ↦ rw room h
  ]

  pub put-Every :
      (hash_token : String → String) (limit : ℕ) (key : String) (value : Value) (ttl now : ℕ)
      (items : List (Entry Value))
      → P value
      → Every items
      → Every (put hash_token limit key value ttl now items)
  unfolding put
  put-Every hash_token limit key value ttl now items this h =
      let good = keep (is_good now) items in
      let room = make_room limit (length good) good in
      (
        this,
        Every-keep (λ e. not (under (hash_token key) e)) room
            (Every-make_room limit (length good) good (Every-keep (is_good now) items h)),
      )

  lookup-Every :
      {e : Entry Value} (h : String) (items : List (Entry Value))
      → Every items
      → lookup h items ≡ some e
      → P e.value
  lookup-Every h [] every found = cc
  lookup-Every {e} h (x ∷ xs) (now, later) found = elim (Bool-cases (under h x)) [
    | inl here ↦
        let same : some x ≡ some e = ground (arith, here, found) in
        subst (λ o. elim o as (λ _. Type κ) [ none ↦ Unit | some y ↦ P y.value ]) same now
    | inr there ↦ lookup-Every {e = e} h xs later (ground (arith, there, found))
  ]

  still_good-Every :
      {value : Value} (now : ℕ) (o : Option (Entry Value))
      → ((e : Entry Value) → o ≡ some e → P e.value)
      → still_good now o ≡ some value
      → P value
  still_good-Every now none k found = cc
  still_good-Every {value} now (some e) k found =
      let same : some e.value ≡ some value = ground (arith, found) in
      subst (λ o. elim o as (λ _. Type κ) [ none ↦ Unit | some v ↦ P v ]) same (k e refl)

  pub take-Every :
      (hash_token : String → String) (key : String) (now : ℕ) (items : List (Entry Value))
      → Every items
      → Every (take hash_token key now items).1
  unfolding take
  take-Every hash_token key now items h = elim (Bool-cases (key == "")) [
    | inl empty ↦ rw empty h
    | inr given ↦ rw given (Every-keep (λ e. not (under (hash_token key) e)) items h)
  ]

  pub taken-Every :
      {value : Value} (hash_token : String → String) (key : String) (now : ℕ)
      (items : List (Entry Value))
      → Every items
      → (take hash_token key now items).0 ≡ some value
      → P value
  unfolding take
  taken-Every {value} hash_token key now items h found = elim (Bool-cases (key == "")) [
    | inl empty ↦ absurd (ground (arith, empty, found))
    | inr given ↦
        still_good-Every now (lookup (hash_token key) items)
          (λ e at. lookup-Every (hash_token key) items h at) (ground (arith, given, found))
  ]

  pub peeked-Every :
      {value : Value} (hash_token : String → String) (key : String) (now : ℕ)
      (items : List (Entry Value))
      → Every items
      → peek hash_token key now items ≡ some value
      → P value
  unfolding peek
  peeked-Every {value} hash_token key now items h found = elim (Bool-cases (key == "")) [
    | inl empty ↦ absurd (ground (arith, empty, found))
    | inr given ↦
        still_good-Every now (lookup (hash_token key) items)
          (λ e at. lookup-Every (hash_token key) items h at) (ground (arith, given, found))
  ]

pub Every-map {ℓ κ ι} :
    {Value : Type ℓ} {P : Value → Type κ} {Q : Value → Type ι} (items : List (Entry Value))
    → ((value : Value) → P value → Q value)
    → Every P items
    → Every Q items
Every-map [] k h = tt
Every-map (e ∷ es) k (now, later) = (k e.value now, Every-map es k later)

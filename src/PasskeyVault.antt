-- ===== src/PasskeyVault.antt =====
-- Short-lived values under one-time keys: `passkeyVault` of routes/passkeys.go. The map is the list
-- of its entries in the order in which Go would visit them.
pub mod Bounded
pub mod Kept
mod Tests
use revoked.Prelude.{
  ℕ, zero, suc, ◌+◌, String, Bool, not, ◌||◌, Option, none, some, List, [], ◌∷◌, ◌==◌, ltb, leb,
  length, keep, first, if◌then◌else◌,
}

-- `passkeyEntry`, with the hash that it is under
pub record Entry {ℓ} (Value : Type ℓ) : Type ℓ where
  pub hash : String
  pub value : Value
  pub expires : ℕ

-- The variables of the loop that looks for the oldest entry.
pub record Oldest : Type 0 where
  pub oldest : String
  pub at : ℕ

abbrev pub passkey_vault_cap : ℕ
passkey_vault_cap = 10000

module _ {ℓ} {Value : Type ℓ} where
  abbrev pub under : String → Entry Value → Bool
  under h e = e.hash == h

  -- `delete(v.items, hash)`
  abbrev pub delete : String → List (Entry Value) → List (Entry Value)
  delete h items = keep (λ e. not (under h e)) items

  -- `v.items[hash]`
  abbrev pub lookup : String → List (Entry Value) → Option (Entry Value)
  lookup h items = first (under h) items

  -- `e.expires.After(now)`
  abbrev pub is_good : ℕ → Entry Value → Bool
  is_good now e = ltb now e.expires

  abbrev pub older : Oldest → Entry Value → Oldest
  older best e =
      if best.oldest == "" || ltb e.expires best.at
      then record { oldest = e.hash; at = e.expires }
      else best

  -- The inner loop of `put`, from the oldest entry so far.
  unfoldable pub find_oldest : Oldest → List (Entry Value) → Oldest
  find_oldest best [] = best
  find_oldest best (e ∷ es) = find_oldest (older best e) es

  abbrev pub oldest_hash : List (Entry Value) → String
  unfolding find_oldest
  oldest_hash items = (find_oldest (record { oldest = ""; at = 0 }) items).oldest

  -- The outer loop of `put`, for at most so many rounds.
  unfoldable pub make_room : ℕ → ℕ → List (Entry Value) → List (Entry Value)
  unfolding find_oldest
  make_room limit zero items = items
  make_room limit (suc rounds) items =
      if leb limit (length items)
      then make_room limit rounds (delete (oldest_hash items) items)
      else items

  -- `put` under a fresh random key
  unfoldable pub put :
      (String → String) → ℕ → String → Value → ℕ → ℕ → List (Entry Value) → List (Entry Value)
  unfolding make_room
  put hash_token limit key value ttl now items =
      let good = keep (is_good now) items in
      let room = make_room limit (length good) good in
      let h = hash_token key in
      record { hash = h; value = value; expires = now + ttl } ∷ delete h room

  -- What an entry that was looked up gives at a time.
  abbrev pub still_good : ℕ → Option (Entry Value) → Option Value
  still_good now none = none
  still_good now (some e) = if not (is_good now e) then none else some e.value

  -- `peek`
  unfoldable pub peek : (String → String) → String → ℕ → List (Entry Value) → Option Value
  peek hash_token key now items =
      if key == "" then none else still_good now (lookup (hash_token key) items)

  -- `take`: the answer, and what is left
  unfoldable pub take :
      (String → String) → String → ℕ → List (Entry Value) → Option Value × List (Entry Value)
  take hash_token key now items =
      if key == ""
      then (none, items)
      else (still_good now (lookup (hash_token key) items), delete (hash_token key) items)

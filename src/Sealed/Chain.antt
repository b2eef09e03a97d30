-- ===== src/Sealed/Chain.antt =====
-- `SealedChainEntry` and `SealedChain` of util/sealedchain.go.
-- SHA-256, the check of ECDSA signatures and of points on the curve are parameters.
pub mod Valid
pub mod Live
pub mod Unique
pub mod History
use Prim.Native.Char.{code}
use Prim.Native.String
use revoked.Prelude.{
  ℕ, zero, suc, ◌+◌, ◌-◌, ◌*◌, ◌/◌, ◌≡◌, take, drop, Bool, true, false, not, ◌&&◌, ◌||◌, Option,
  none, some, List, [], ◌∷◌, ◌++◌, String, length, get_elem?, eqb, ltb, leb, if◌then◌else◌,
}
use revoked.Sealed.Context.{Bytes, Part, text, int, sealed_context}

-- The bytes of an ASCII text.
abbrev pub bytes : String → Bytes
bytes String.[] = []
bytes (String.◌∷◌ c s) = code c ∷ bytes s

-- `==` on Go strings
abbrev pub same : Bytes → Bytes → Bool
same [] [] = true
same (a ∷ xs) (b ∷ ys) = eqb a b && same xs ys
same _ _ = false

abbrev pub sealed_action_add : Bytes
sealed_action_add = bytes "add"

abbrev pub sealed_action_remove : Bytes
sealed_action_remove = bytes "remove"

abbrev pub sealed_kind_device : Bytes
sealed_kind_device = bytes "device"

abbrev pub sealed_kind_recovery : Bytes
sealed_kind_recovery = bytes "recovery"

abbrev pub sealed_kind_passkey : Bytes
sealed_kind_passkey = bytes "passkey"

abbrev pub max_sealed_live_entries : ℕ
max_sealed_live_entries = 32

pub record SealedChainEntry : Type 0 where
  pub user : Bytes
  pub seq : ℕ
  pub action : Bytes
  pub kind : Bytes
  pub label : Bytes
  pub credential_id : Bytes
  pub hpke_public_key : Bytes
  pub signing_public_key : Bytes
  pub target_seq : ℕ
  pub previous_hash : Bytes
  pub signer_seq : ℕ
  pub anchor_signature : Bytes
  pub signature : Bytes

-- The parts that `Payload` hands to `SealedContext`.
abbrev pub payload_parts : SealedChainEntry → List Part
payload_parts e =
    text e.user
    ∷ int e.seq
    ∷ text e.action
    ∷ text e.kind
    ∷ text e.label
    ∷ text e.hpke_public_key
    ∷ text e.signing_public_key
    ∷ int e.target_seq
    ∷ text e.previous_hash
    ∷ int e.signer_seq
    ∷ text e.anchor_signature
    ∷ []

-- `Payload`
unfoldable pub payload : SealedChainEntry → Bytes
payload e = sealed_context (bytes "revoked-device-chain-v1") (payload_parts e)

-- `SealedRecoveryAnchorPayload`
unfoldable pub sealed_recovery_anchor_payload : Bytes → Bytes → Bytes
sealed_recovery_anchor_payload user root_hash =
    sealed_context (bytes "revoked-recovery-anchor-v1") (text user ∷ text root_hash ∷ [])

-- `SealedPasskeyAnchorPayload`
unfoldable pub sealed_passkey_anchor_payload : Bytes → Bytes → Bytes → Bytes
sealed_passkey_anchor_payload user root_hash credential_id =
    sealed_context (bytes "revoked-passkey-anchor-v1")
      (text user ∷ text root_hash ∷ text credential_id ∷ [])

-- The cryptography: `sha256.Sum256`, whether `ecdh.P256().NewPublicKey` and `elliptic.Unmarshal`
-- take a key, the order of the curve, and `ecdsa.Verify` of a key, a digest, r and s.
pub record Crypto : Type 0 where
  pub sha256 : Bytes → Bytes
  pub on_curve : Bytes → Bool
  pub unmarshals : Bytes → Bool
  pub order : ℕ
  pub ecdsa_verify : Bytes → Bytes → ℕ → ℕ → Bool

-- `big.Int.SetBytes`
unfoldable pub set_bytes : ℕ → Bytes → ℕ
set_bytes n [] = n
set_bytes n (b ∷ bs) = set_bytes (n * 256 + b) bs

-- `removed` is the map, as the list of the seqs set in it.
pub record SealedChain : Type 0 where
  pub entries : List SealedChainEntry
  pub removed : List ℕ

abbrev pub empty : SealedChain
empty = record { entries = []; removed = [] }

-- `c.removed[seq]`
abbrev pub in_removed : ℕ → List ℕ → Bool
in_removed seq [] = false
in_removed seq (s ∷ ss) = eqb s seq || in_removed seq ss

-- `Load`
unfoldable pub load : SealedChain → SealedChainEntry → SealedChain
load c e = record {
  entries = c.entries ++ e ∷ [];
  removed = if same e.action sealed_action_remove then e.target_seq ∷ c.removed else c.removed;
}

-- `NextSeq`
unfoldable pub next_seq : SealedChain → ℕ
next_seq c = length c.entries + 1

-- `HeadSeq`
unfoldable pub head_seq : SealedChain → ℕ
head_seq c = length c.entries

-- `Entry`
unfoldable pub entry : SealedChain → ℕ → Option SealedChainEntry
entry c seq =
    if ltb seq 1 || ltb (length c.entries) seq then none else get_elem? c.entries (seq - 1)

abbrev pub is_added : Option SealedChainEntry → Bool
is_added none = false
is_added (some e) = same e.action sealed_action_add

-- `IsLive`
unfoldable pub is_live : SealedChain → ℕ → Bool
unfolding entry
is_live c seq = is_added (entry c seq) && not (in_removed seq c.removed)

-- The loop of `Live`.
unfoldable pub live_among : SealedChain → List SealedChainEntry → List ℕ
live_among c [] = []
live_among c (e ∷ es) = let rest = live_among c es in if is_live c e.seq then e.seq ∷ rest else rest

-- `Live`
unfoldable pub live : SealedChain → List ℕ
live c = live_among c c.entries

abbrev pub passes : (SealedChainEntry → Bool) → Option SealedChainEntry → Bool
passes t none = false
passes t (some e) = t e

-- The loops of `LivePasskey` and `LiveRecovery`: the first live entry that passes a test.
unfoldable pub find_live :
    SealedChain → (SealedChainEntry → Bool) → List ℕ → Option SealedChainEntry
find_live c t [] = none
find_live c t (seq ∷ seqs) =
    let rest = find_live c t seqs in if passes t (entry c seq) then entry c seq else rest

abbrev pub is_passkey : Bytes → SealedChainEntry → Bool
is_passkey credential_id e = same e.kind sealed_kind_passkey && same e.credential_id credential_id

abbrev pub is_recovery : SealedChainEntry → Bool
is_recovery e = same e.kind sealed_kind_recovery

-- `LivePasskey`
unfoldable pub live_passkey : SealedChain → Bytes → Option SealedChainEntry
unfolding live find_live
live_passkey c credential_id = find_live c (is_passkey credential_id) (live c)

-- `LiveRecovery`
unfoldable pub live_recovery : SealedChain → Option SealedChainEntry
unfolding live find_live
live_recovery c = find_live c is_recovery (live c)

abbrev pub is_none : Option SealedChainEntry → Bool
is_none none = true
is_none (some _) = false

module _ (crypto : Crypto) where
  open crypto use {sha256, on_curve, unmarshals, order, ecdsa_verify}

  -- `ValidSealedPublicKey`
  unfoldable pub valid_sealed_public_key : Bytes → Bool
  valid_sealed_public_key key = if not (eqb (length key) 65) then false else on_curve key

  -- `VerifySealedSignature`
  unfoldable pub verify_sealed_signature : Bytes → Bytes → Bytes → Bool
  unfolding valid_sealed_public_key set_bytes
  verify_sealed_signature public_key message signature =
      if not (eqb (length signature) 64) || not (valid_sealed_public_key public_key)
      then false
      else (let r = set_bytes 0 (take 32 signature) in
          let s = set_bytes 0 (drop 32 signature) in
          if ltb (order / 2) s
          then false
          else if not (unmarshals public_key)
          then false
          else ecdsa_verify public_key (sha256 message) r s)

  -- `Hash`
  unfoldable pub hash : SealedChainEntry → Bytes
  hash e = sha256 (payload e ++ e.signature)

  abbrev pub last_hash : List SealedChainEntry → Bytes
  last_hash [] = []
  last_hash (e ∷ []) = hash e
  last_hash (e ∷ f ∷ es) = last_hash (f ∷ es)

  -- `HeadHash`; nil and the empty slice compare alike.
  unfoldable pub head_hash : SealedChain → Bytes
  head_hash c = last_hash c.entries

  abbrev pub first_hash : List SealedChainEntry → Bytes
  first_hash [] = []
  first_hash (e ∷ es) = hash e

  abbrev pub signed_by : Option SealedChainEntry → SealedChainEntry → Bool
  signed_by none e = false
  signed_by (some s) e = verify_sealed_signature s.signing_public_key (payload e) e.signature

  -- The `switch` on the kind of an added entry.
  unfoldable pub acceptable_kind : SealedChain → SealedChainEntry → Bool
  acceptable_kind c e =
      if same e.kind sealed_kind_device
      then true
      else if same e.kind sealed_kind_recovery
      then is_none (live_recovery c)
        && verify_sealed_signature e.signing_public_key
            (sealed_recovery_anchor_payload e.user (first_hash c.entries)) e.anchor_signature
      else if same e.kind sealed_kind_passkey
      then not (same e.credential_id [])
        && is_none (live_passkey c e.credential_id)
        && verify_sealed_signature e.signing_public_key
            (sealed_passkey_anchor_payload e.user (first_hash c.entries) e.credential_id)
            e.anchor_signature
      else false

  -- The `switch` on the action.
  unfoldable pub acceptable_action : SealedChain → SealedChainEntry → Bool
  unfolding acceptable_kind
  acceptable_action c e =
      if same e.action sealed_action_remove
      then is_live c e.target_seq
      else if same e.action sealed_action_add
      then (if leb max_sealed_live_entries (length (live c)) then false else acceptable_kind c e)
      else false

  -- `acceptable`
  unfoldable pub acceptable : SealedChain → SealedChainEntry → Bool
  unfolding acceptable_action next_seq head_hash
  acceptable c e =
      if not (eqb e.seq (next_seq c)) || not (same e.previous_hash (head_hash c))
      then false
      else if same e.action sealed_action_add
          && (not (valid_sealed_public_key e.hpke_public_key)
              || not (valid_sealed_public_key e.signing_public_key))
      then false
      else if eqb (length c.entries) 0
      then same e.action sealed_action_add
        && same e.kind sealed_kind_device
        && eqb e.signer_seq e.seq
        && verify_sealed_signature e.signing_public_key (payload e) e.signature
      else if not (is_live c e.signer_seq)
      then false
      else if not (signed_by (entry c e.signer_seq) e)
      then false
      else acceptable_action c e

  -- `Append`; `none` is ErrSealedChainInvalid.
  unfoldable pub append : SealedChain → SealedChainEntry → Option SealedChain
  unfolding acceptable load
  append c e = if acceptable c e then some (load c e) else none

-- ===== src/Sealed/Chain/History.antt =====
-- What a list of util/sealedchain.go keeps for good: the number of a removed entry is never live
-- again, and the newest hash fixes everything that was signed.
use mathlib.Core.Path.{ap₂}
use revoked.Prelude.{
  map, map-append, length-append, ℕ, ◌≤◌, ◌<◌, ◌≡◌, refl, ap, sym, ◌∙◌, subst, true, false, Option,
  none, some, List, [], ◌∷◌, ◌++◌, length, arith, All,
}
use revoked.Sealed.Context.{Bytes, Fits, sealed_context-injective, append-cancel}
use revoked.Sealed.Chain.{
  SealedChainEntry, SealedChain, Crypto, same, load, next_seq, entry, payload, payload_parts, hash,
  head_hash, is_live, acceptable, append, bytes, last_hash, verify_sealed_signature, signed_by,
}
use revoked.Sealed.Chain.Valid.{same-eq, Built, start, grow, append-parts, is_live-append}

module _ (crypto : Crypto) where
  -- `d` is `c` with more entries, each accepted in its turn.
  pub data Extends (c : SealedChain) : SealedChain → Type 0 where
    here : Extends c c
    more :
        {d f : SealedChain} (e : SealedChainEntry)
        → Extends c d
        → append crypto d e ≡ some f
        → Extends c f

  Built-Extends : {c d : SealedChain} → Built crypto c → Extends c d → Built crypto d
  Built-Extends b here = b
  Built-Extends b (more e x h) = grow e (Built-Extends b x) h

  length-append-grows :
      (c : SealedChain) (e : SealedChainEntry) {d : SealedChain}
      → append crypto c e ≡ some d
      → length c.entries < length d.entries
  unfolding load
  length-append-grows c e {d} h =
      let (fine, same_list) = append-parts crypto c e {d = d} h in
      rw same_list (omega (arith, length-append c.entries (e ∷ [])))

  length-Extends : {c d : SealedChain} → Extends c d → length c.entries ≤ length d.entries
  length-Extends here = omega arith
  length-Extends (more {d} {f} e x h) =
      omega (arith, length-Extends x, length-append-grows d e {d = f} h)

  -- In a list that `Append` built, the number of an entry that is not live is not live after any
  -- further accepted entries.
  pub removed_for_good :
      {c d : SealedChain} (seq : ℕ)
      → Built crypto c
      → seq ≤ length c.entries
      → is_live c seq ≡ false
      → Extends c d
      → is_live d seq ≡ false
  unfolding next_seq
  removed_for_good seq b low dead here = dead
  removed_for_good seq b low dead (more {d} {f} e x h) =
      let before = removed_for_good seq b low dead x in
      ground (arith, is_live-append crypto e {d = f} seq (Built-Extends b x) h, length-Extends x)

-- An entry without the credential's name, which its signature does not cover.
abbrev pub signed : SealedChainEntry → SealedChainEntry
signed e = record e { credential_id = [] }

-- What fits the encoding of the payload.
abbrev pub FitsPayload : SealedChainEntry → Type 0
FitsPayload e = All Fits (payload_parts e)

parts-signed :
    (e f : SealedChainEntry)
    → payload_parts e ≡ payload_parts f
    → e.signature ≡ f.signature
    → signed e ≡ signed f
parts-signed e f p s = cc

payload-parts :
    (e f : SealedChainEntry)
    → FitsPayload e
    → FitsPayload f
    → payload e ≡ payload f
    → payload_parts e ≡ payload_parts f
unfolding payload
payload-parts e f fe ff h =
    (sealed_context-injective (bytes "revoked-device-chain-v1") (bytes "revoked-device-chain-v1")
      (payload_parts e) (payload_parts f) (omega arith) (omega arith) fe ff tt h).1

module _ (crypto : Crypto)
    (collision_free : (x y : Bytes) → crypto.sha256 x ≡ crypto.sha256 y → x ≡ y) where
  hash-signed :
      (e f : SealedChainEntry)
      → FitsPayload e
      → FitsPayload f
      → length e.signature ≡ 64
      → length f.signature ≡ 64
      → hash crypto e ≡ hash crypto f
      → signed e ≡ signed f
  unfolding hash
  hash-signed e f fe ff le lf h =
      let whole = collision_free (payload e ++ e.signature) (payload f ++ f.signature) h in
      let lengths =
        sym (length-append (payload e) e.signature)
        ∙ ap length whole
        ∙ length-append (payload f) f.signature in
      let (front, back) =
        append-cancel (payload e) (payload f) e.signature f.signature (omega (arith, lengths))
          whole in
      parts-signed e f (payload-parts e f fe ff front) back

module _ (crypto : Crypto) where
  last_hash-append :
      (es : List SealedChainEntry) (e : SealedChainEntry)
      → last_hash crypto (es ++ e ∷ []) ≡ hash crypto e
  last_hash-append [] e = refl
  last_hash-append (x ∷ []) e = refl
  last_hash-append (x ∷ y ∷ es) e = last_hash-append (y ∷ es) e

  verify-length :
      (key message signature : Bytes)
      → verify_sealed_signature crypto key message signature ≡ true
      → length signature ≡ 64
  unfolding verify_sealed_signature
  verify-length key message signature h = ground arith

  signed_by-length :
      (o : Option SealedChainEntry) (e : SealedChainEntry)
      → signed_by crypto o e ≡ true
      → length e.signature ≡ 64
  signed_by-length none e h = cc
  signed_by-length (some s) e h = verify-length s.signing_public_key (payload e) e.signature h

  acceptable-signature :
      (c : SealedChain) (e : SealedChainEntry)
      → acceptable crypto c e ≡ true
      → length e.signature ≡ 64
  unfolding acceptable
  acceptable-signature c e h = ground (
    arith,
    verify-length e.signing_public_key (payload e) e.signature,
    signed_by-length (entry c e.signer_seq) e,
  )

  acceptable-previous :
      (c : SealedChain) (e : SealedChainEntry)
      → acceptable crypto c e ≡ true
      → same e.previous_hash (head_hash crypto c) ≡ true
  unfolding acceptable
  acceptable-previous c e h = ground arith

  head_hash-load :
      (c : SealedChain) (e : SealedChainEntry) → head_hash crypto (load c e) ≡ hash crypto e
  unfolding head_hash load
  head_hash-load c e = last_hash-append c.entries e

All-append :
    (es : List SealedChainEntry) (e : SealedChainEntry)
    → All FitsPayload (es ++ e ∷ [])
    → All FitsPayload es × FitsPayload e
All-append [] e (h, t) = (tt, h)
All-append (x ∷ es) e (h, t) = let (rest, last) = All-append es e t in ((h, rest), last)

map-signed-append :
    (es : List SealedChainEntry) (e : SealedChainEntry)
    → map signed (es ++ e ∷ []) ≡ map signed es ++ signed e ∷ []
map-signed-append es e = map-append signed es (e ∷ [])

module _ (crypto : Crypto)
    (collision_free : (x y : Bytes) → crypto.sha256 x ≡ crypto.sha256 y → x ≡ y) where
  -- Two lists that `Append` built, of one length and with one newest hash, agree on everything that
  -- was signed, entry by entry, where SHA-256 has no collisions and the payloads fit their encoding.
  pub same_signed :
      {c d : SealedChain}
      → Built crypto c
      → Built crypto d
      → All FitsPayload c.entries
      → All FitsPayload d.entries
      → length c.entries ≡ length d.entries
      → head_hash crypto c ≡ head_hash crypto d
      → map signed c.entries ≡ map signed d.entries
  unfolding load
  same_signed start start fc fd l h = refl
  same_signed start (grow {c = d0} {d} f y k) fc fd l h =
      absurd (omega (arith, l, length-append-grows crypto d0 f {d = d} k))
  same_signed (grow {c = c0} {d = c} e x j) start fc fd l h =
      absurd (omega (arith, l, length-append-grows crypto c0 e {d = c} j))
  same_signed (grow {c = c0} {d = c} e x j) (grow {c = d0} {d} f y k) fc fd l h =
      let (fine, same_c) = append-parts crypto c0 e {d = c} j in
      let (fine', same_d) = append-parts crypto d0 f {d = d} k in
      let fits_c = All-append c0.entries e (subst (λ z. All FitsPayload z.entries) same_c fc) in
      let fits_d = All-append d0.entries f (subst (λ z. All FitsPayload z.entries) same_d fd) in
      let heads =
        sym (head_hash-load crypto c0 e)
        ∙ ap (head_hash crypto) (sym same_c)
        ∙ h
        ∙ ap (head_hash crypto) same_d
        ∙ head_hash-load crypto d0 f in
      let last =
        hash-signed crypto collision_free e f fits_c.1 fits_d.1
          (acceptable-signature crypto c0 e fine) (acceptable-signature crypto d0 f fine') heads in
      let before =
        sym (same-eq e.previous_hash (head_hash crypto c0) (acceptable-previous crypto c0 e fine))
        ∙ ap (λ (z : SealedChainEntry). z.previous_hash) last
        ∙ same-eq f.previous_hash (head_hash crypto d0) (acceptable-previous crypto d0 f fine') in
      let sizes = ap (λ (z : SealedChain). length z.entries) same_c in
      let sizes' = ap (λ (z : SealedChain). length z.entries) same_d in
      let shorter : length c0.entries ≡ length d0.entries = omega (
        arith,
        l,
        sizes,
        sizes',
        length-append c0.entries (e ∷ []),
        length-append d0.entries (f ∷ []),
      ) in
      let rest = same_signed x y fits_c.0 fits_d.0 shorter before in
      ap (λ (z : SealedChain). map signed z.entries) same_c
      ∙ map-signed-append c0.entries e
      ∙ ap₂ (λ (u : List SealedChainEntry) (v : SealedChainEntry). u ++ v ∷ []) rest last
      ∙ sym (map-signed-append d0.entries f)
      ∙ ap (λ (z : SealedChain). map signed z.entries) (sym same_d)

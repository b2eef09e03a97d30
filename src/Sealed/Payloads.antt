-- ===== src/Sealed/Payloads.antt =====
-- What devices sign besides the entries of their list (util/sealedchain.go).
use revoked.Prelude.{ℕ, [], ◌∷◌}
use revoked.Sealed.Context.{Bytes, text, int, sealed_context}
use revoked.Sealed.Chain.{bytes}

abbrev wrap_label : Bytes
wrap_label = bytes "revoked-wrap-signature-v1"

abbrev grant_label : Bytes
grant_label = bytes "revoked-grant-signature-v1"

-- `SealedWrapPayload`
unfoldable pub sealed_wrap_payload : Bytes → ℕ → Bytes → Bytes → ℕ → Bytes
sealed_wrap_payload workspace epoch recipient_hpke_key wrap chain_seq =
    sealed_context wrap_label
      (text workspace ∷ int epoch ∷ text recipient_hpke_key ∷ text wrap ∷ int chain_seq ∷ [])

-- `SealedGrantPayload`
unfoldable pub sealed_grant_payload : Bytes → ℕ → Bytes → Bytes → Bytes → Bytes → ℕ → ℕ → Bytes
sealed_grant_payload workspace epoch recipient hpke_key wrap granter granter_seq recipient_seq =
    sealed_context grant_label (
      text workspace
      ∷ int epoch
      ∷ text recipient
      ∷ text hpke_key
      ∷ text wrap
      ∷ text granter
      ∷ int granter_seq
      ∷ int recipient_seq
      ∷ [])

-- `SealedUnsealPayload`
unfoldable pub sealed_unseal_payload : Bytes → Bytes → ℕ → Bytes → Bytes
sealed_unseal_payload user record_id expected_version value =
    sealed_context (bytes "revoked-unseal-v1")
      (text user ∷ text record_id ∷ int expected_version ∷ text value ∷ [])

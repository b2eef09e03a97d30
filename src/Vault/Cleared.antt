-- ===== src/Vault/Cleared.antt =====
-- What a reset leaves of the vault (`resetSealing` of routes/sealed.go).
use revoked.Prelude.{String, Bool, not, ◌&&◌, ◌||◌, List, all}
use revoked.Vault.{KeyWrap}
use revoked.Vault.Records.{VaultRecord}
use revoked.Vault.Lost.{is_own, is_lost}
use revoked.Vault.Orphans.{not_alias_of}

-- No alias is left of a record that is lost and reads through none.
abbrev pub no_orphans : List String → List KeyWrap → List VaultRecord → List VaultRecord → Bool
no_orphans held others before after =
    all (λ p. not (is_own p && is_lost held others p) || all (not_alias_of p.id) after) before

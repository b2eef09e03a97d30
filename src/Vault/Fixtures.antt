-- ===== src/Vault/Fixtures.antt =====
-- A workspace of two members, and a record in it, under a cryptography that accepts everything.
use revoked.Prelude.{ℕ, zero, suc, String, Bool, true, false, Option, some, [], ◌∷◌}
use revoked.Sealed.Context.{Bytes}
use revoked.Sealed.Chain.{
  SealedChainEntry, SealedChain, Crypto, bytes, sealed_action_add, sealed_kind_device,
}
use revoked.Members.{Member}
use revoked.Access.{UserRecord}
use revoked.Vault.{KeyEpoch, Keys}
use revoked.Vault.Handover.{Codec, Directory, SealedWrap, own_copy}
use revoked.Vault.Records.{VaultRecord}
use revoked.Vault.Drawers.{Drawer, LinkRow}
use revoked.Vault.Sealing.{SealedWrite}

abbrev pub zeros : ℕ → Bytes
zeros zero = []
zeros (suc n) = 0 ∷ zeros n

abbrev pub lax : Crypto
lax = record {
  sha256 = λ b. b;
  on_curve = λ _. true;
  unmarshals = λ _. true;
  order = 10;
  ecdsa_verify = λ _ _ _ _. true;
}

abbrev pub codec : Codec
codec = record { utf8 = bytes; decode_sealed = λ _. some (zeros 64) }

abbrev pub device : SealedChainEntry
device = record {
  user = bytes "ann";
  seq = 1;
  action = sealed_action_add;
  kind = sealed_kind_device;
  label = [];
  credential_id = [];
  hpke_public_key = zeros 65;
  signing_public_key = zeros 65;
  target_seq = 0;
  previous_hash = [];
  signer_seq = 1;
  anchor_signature = [];
  signature = zeros 64;
}

abbrev pub one : SealedChain
one = record { entries = device ∷ []; removed = [] }

abbrev pub plain_member : Member
plain_member = record { id = "m"; user = "ann"; workspace = "home"; role = ""; permissions = [] }

abbrev pub dir : Directory
dir = record { member_of = λ _ _. some plain_member; legacy_identity = λ _. false }

abbrev pub first_key : KeyEpoch
first_key = record {
  scope = "home";
  epoch = 1;
  prior_wrap = "";
  created_by = "ann";
  rotation_due = false;
}

abbrev pub handed : String → SealedWrap
handed workspace = record {
  workspace = workspace;
  epoch = 1;
  device_seq = 1;
  wrap = "x";
  signer_seq = 1;
  chain_seq = 1;
  signature = "s";
}

abbrev pub keys : Keys
keys = record {
  epochs = first_key ∷ [];
  wraps = own_copy "home" "ann" (handed "home") ∷ own_copy "home" "bob" (handed "home") ∷ [];
  account_epochs = [];
  account_wraps = [];
  chains = λ _. one;
}

abbrev pub ann : UserRecord
ann = record { id = "ann"; active_workspace = "home"; active_role = "" }

abbrev pub everyone : String → String → Option Member
everyone _ _ = some plain_member

abbrev pub saves : VaultRecord → Bool
saves _ = true

abbrev pub plain : VaultRecord
plain = record {
  id = "r";
  key = "k";
  label = "l";
  type = "text";
  format = "";
  user = "ann";
  workspace = "home";
  alias_of = "";
  requested_by = "";
  value = "v";
  seal = record { sealed = false; sealed_value = ""; version = 0; key_epoch = 0; key_wrap = "" };
}

abbrev pub body : SealedWrite
body = record {
  payload = record { sealed_value = "c"; key_epoch = 2; key_wrap = "w" };
  expected_version = 0;
  drop_links = true;
  key = "k";
  label = "";
  type = "";
  format = "";
}

abbrev pub link : LinkRow
link = record {
  status = "active";
  records = "r" ∷ "s" ∷ [];
  sections = [];
  grants = ("g", "r") ∷ [];
  snapshot = ("g", "v") ∷ [];
}

abbrev pub drawer : Drawer
drawer = record { row = some plain; aliases = "a" ∷ []; links = link ∷ []; sections = [] }

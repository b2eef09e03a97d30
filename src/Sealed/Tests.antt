-- ===== src/Sealed/Tests.antt =====
-- A list of two entries, and one that is turned away, under a cryptography that accepts everything.
use revoked.Prelude.{
  ℕ, zero, suc, ◌+◌, ◌*◌, ◌^◌, ◌≤◌, ◌≡◌, refl, true, false, some, List, [], ◌∷◌, length, arith,
}
use revoked.Sealed.Context.{
  Bytes, Part, text, int, big_endian, sealed_context, sealed_context_collision,
}
use revoked.Sealed.Chain.{
  SealedChainEntry, SealedChain, empty, Crypto, bytes, hash, live_among, valid_sealed_public_key,
  verify_sealed_signature, append, is_live, live, sealed_action_add, sealed_action_remove,
  sealed_kind_device, sealed_kind_recovery, live_recovery, payload, max_sealed_live_entries,
}
use revoked.Sealed.Chain.Valid.{Built, start, grow}
use revoked.Sealed.Chain.Live.{live_bounded}
use revoked.Sealed.Chain.History.{here, more, removed_for_good}

sealed_context_test :
    sealed_context (1 ∷ 2 ∷ []) (int 258 ∷ text (7 ∷ []) ∷ [])
    ≡ 0 ∷ 0 ∷ 0 ∷ 2 ∷ 1 ∷ 2 ∷ 0 ∷ 0 ∷ 0 ∷ 0 ∷ 0 ∷ 0 ∷ 1 ∷ 2 ∷ 0 ∷ 0 ∷ 0 ∷ 1 ∷ 7 ∷ []
unfolding sealed_context
sealed_context_test = refl

abbrev label : Bytes
label = 1 ∷ []

abbrev parts : List Part
parts = int 3 ∷ text (7 ∷ []) ∷ []

sealed_context_collision_example :
    sealed_context (1 ∷ []) (int (4 * 2 ^ 32 + 97) ∷ [])
    ≡ sealed_context (1 ∷ []) (text (big_endian 4 97) ∷ [])
sealed_context_collision_example = sealed_context_collision (1 ∷ []) 97 [] (omega arith)

abbrev zeros : ℕ → Bytes
zeros zero = []
zeros (suc n) = 0 ∷ zeros n

abbrev lax : Crypto
lax = record {
  sha256 = λ b. b;
  on_curve = λ _. true;
  unmarshals = λ _. true;
  order = 10;
  ecdsa_verify = λ _ _ _ _. true;
}

abbrev root : SealedChainEntry
root = record {
  user = bytes "u";
  seq = 1;
  action = sealed_action_add;
  kind = sealed_kind_device;
  label = [];
  credential_id = [];
  hpke_public_key = zeros 65;
  signing_public_key = zeros 65;
  target_seq = 0;
  previous_hash = [];
  signer_seq = 1;
  anchor_signature = [];
  signature = zeros 64;
}

abbrev recovery : SealedChainEntry
recovery = record root {
  seq = 2;
  kind = sealed_kind_recovery;
  previous_hash = hash lax root;
  anchor_signature = zeros 64;
}

-- The device removes itself, and then the recovery key.
abbrev leave : SealedChainEntry
leave = record root {
  seq = 3;
  action = sealed_action_remove;
  target_seq = 1;
  previous_hash = hash lax recovery;
}

abbrev leave_all : SealedChainEntry
leave_all = record root {
  seq = 4;
  action = sealed_action_remove;
  target_seq = 2;
  signer_seq = 2;
  previous_hash = hash lax leave;
}

abbrev one : SealedChain
one = record { entries = root ∷ []; removed = [] }

abbrev two : SealedChain
two = record { entries = root ∷ recovery ∷ []; removed = [] }

abbrev three : SealedChain
three = record { entries = root ∷ recovery ∷ leave ∷ []; removed = 1 ∷ [] }

abbrev four : SealedChain
four = record { entries = root ∷ recovery ∷ leave ∷ leave_all ∷ []; removed = 2 ∷ 1 ∷ [] }

ops : Unit {0}
unfolding append sealed_context hash payload live_recovery is_live live live_among
    valid_sealed_public_key verify_sealed_signature
ops = tt

appended_one : append lax empty root ≡ some one
unfolding ops
appended_one = refl

appended_two : append lax one recovery ≡ some two
unfolding ops
appended_two = refl

appended_three : append lax two leave ≡ some three
unfolding ops
appended_three = refl

appended_four : append lax three leave_all ≡ some four
unfolding ops
appended_four = refl

built_two : Built lax two
built_two = grow recovery (grow root start appended_one) appended_two

built_three : Built lax three
built_three = grow leave built_two appended_three

built_four : Built lax four
built_four = grow leave_all built_three appended_four

live_bounded_example : length (live two) ≤ max_sealed_live_entries
live_bounded_example = live_bounded lax built_two

dead_four : live four ≡ []
unfolding ops
dead_four = refl

dead_device : is_live three 1 ≡ false
unfolding ops
dead_device = refl

removed_for_good_example : is_live four 1 ≡ false
removed_for_good_example =
    removed_for_good lax 1 built_three (omega arith) dead_device (more leave_all here appended_four)

abbrev built_one : Built lax one
built_one = grow root start appended_one

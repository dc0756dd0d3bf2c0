-- ===== src/Fault/Tests.antt =====
-- The theorems on the fault campaign at concrete data.
use perfectvaluecubesymmetri.Base.{
  ℕ, ◌<◌, ◌≡◌, ◌↔◌, refl, true, false, [], ◌∷◌, arith, Bytes, length, get_or, replicate, some,
  bit_xor, if◌then◌else◌, ok,
}
use perfectvaluecubesymmetri.Symmetric.{
  a1_bits192, bits192, KeyPair512, SealedMessage, seal, is_supported_tag_size, tag_size_bytes,
}
use perfectvaluecubesymmetri.Symmetric.Profile.{xor_bytes}
use perfectvaluecubesymmetri.Symmetric.Messages.{seal-lengths}
use perfectvaluecubesymmetri.Symmetric.Toy.{toy, toy_a1, toy-Documented}
use perfectvaluecubesymmetri.Fault.TagFaults.{CampaignCase}
use perfectvaluecubesymmetri.Fault.Comparison.{comparison_model, is_skipped, comparison_model_iff}
use perfectvaluecubesymmetri.Fault.Stream.Blocks.{
  named_size, apply_stream_twice, apply_stream_block, block_of,
}
use perfectvaluecubesymmetri.Fault.Stream.{Cipher, apply_stream, is_faulted}
use perfectvaluecubesymmetri.Fault.Diagnosis.{
  DiagnosticRecord, diagnose, IsPartitioned, diagnose-IsPartitioned,
}

abbrev value : Bytes
value = 1 ∷ 2 ∷ 3 ∷ []

comparison_model_iff_example : (comparison_model value (1 ∷ 9 ∷ 3 ∷ []) 3 (some 1) ≡ ok true) ↔ (
    (i : ℕ)
    → i < 3
    → is_skipped (some 1) i ≡ false
    → get_or value i 0 ≡ get_or (1 ∷ 9 ∷ 3 ∷ []) i 0)
comparison_model_iff_example =
    comparison_model_iff value (1 ∷ 9 ∷ 3 ∷ []) 3 (some 1) (omega arith) (omega arith)

-- A keystream that repeats the counter and one byte of the key.
abbrev toy_cipher : Cipher
toy_cipher = record {
  frame_stream_block = λ nonce counter size. counter ∷ nonce;
  keyed_output = λ key frame. replicate 32 (bit_xor (get_or key 0 0) (get_or frame 0 0));
}

abbrev text : Bytes
text = replicate 70 5

apply_stream_twice_example :
    (output : Bytes) × (apply_stream toy_cipher value [] text bits192 (some 1) 6 ≡ ok output)
    × (apply_stream toy_cipher value [] output bits192 (some 1) 6 ≡ ok text)
apply_stream_twice_example =
    apply_stream_twice toy_cipher value [] text bits192 a1_bits192 (some 1) 6
      (named_size a1_bits192)

run :
    (output : Bytes) × (apply_stream toy_cipher value [] text bits192 (some 1) 6 ≡ ok output)
    × (apply_stream toy_cipher value [] output bits192 (some 1) 6 ≡ ok text)
run =
    apply_stream_twice toy_cipher value [] text bits192 a1_bits192 (some 1) 6
      (named_size a1_bits192)

apply_stream_block_example :
    block_of 2 run.0
    ≡ xor_bytes (block_of 2 text) (
        toy_cipher.keyed_output value (
          toy_cipher.frame_stream_block []
            (if is_faulted (some 1) 2 then bit_xor 2 6 else 2)
            a1_bits192))
apply_stream_block_example =
    apply_stream_block toy_cipher value [] text bits192 a1_bits192 (some 1) 6 run.0 2
      (named_size a1_bits192) run.1

abbrev diagnosed : DiagnosticRecord
diagnosed = record {
  profile_bits = 128;
  case_index = 0;
  state_bit = 77;
  prefix_distance = 1;
  full_distance = 1;
  extended_distance = 4;
  first_changed_byte = 20;
  changed_prefix_bit = 3;
  first_controller_stage = 18;
  first_non_single_stage = 2;
  single_bit_until_first_output = false;
}

diagnose-IsPartitioned_example : IsPartitioned (diagnose 16 (diagnosed ∷ diagnosed ∷ [])) 2
diagnose-IsPartitioned_example =
    diagnose-IsPartitioned 16 (diagnosed ∷ diagnosed ∷ []) (omega arith)

abbrev keys : KeyPair512
keys = record { encryption_key = replicate 32 1; authentication_key = replicate 32 2 }

supported : is_supported_tag_size 16 ≡ true
unfolding is_supported_tag_size
supported = refl

made :
    (m : SealedMessage) × (seal toy_a1 keys (replicate 24 4) (8 ∷ []) text 16 ≡ ok m)
    × (length m.ciphertext ≡ length text)
    × (length m.tag ≡ tag_size_bytes 16)
made =
    (seal-lengths toy_a1 toy toy-Documented keys (replicate 24 4) (8 ∷ []) text 16 (omega arith)).0
      supported

abbrev sealed_case : CampaignCase
sealed_case = record {
  keys = keys;
  nonce = replicate 24 4;
  associated_data = 8 ∷ [];
  plaintext = text;
  tag_size = 16;
  sealed = made.0;
}

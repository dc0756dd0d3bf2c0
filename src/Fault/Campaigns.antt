-- ===== src/Fault/Campaigns.antt =====
-- The campaigns of analysis/fault_injection_campaign.cpp that fault every bit of the vendored state, up
-- to their printing. The vendored framing functions are the parameter `Frames`.
pub mod Counted
pub mod CountedMac
pub mod Diagnose
use perfectvaluecubesymmetri.Base.{
  String, ℕ, zero, suc, ◌+◌, ◌*◌, ◌^◌, ◌%◌, Bool, true, false, List, [], ◌∷◌, ◌++◌, bit_xor, ltb,
  ◌==◌, if◌then◌else◌, same_bytes, Bytes, length, take, Result, ok, err, ◌>>=◌, ◌>>◌, require,
  runtime_error,
}
use perfectvaluecubesymmetri.Fault.Bits.{bit_distance}
use perfectvaluecubesymmetri.Fault.Cases.{seed, make_case}
use perfectvaluecubesymmetri.Fault.Localization.{
  StateLocalization, no_localization, localize_state_fault, changed_bit,
}
use perfectvaluecubesymmetri.Fault.Regions.{c1_state_bits}
use perfectvaluecubesymmetri.Fault.State.{WorkingState, Pvc1, flip_c1_state_bit}
use perfectvaluecubesymmetri.Fault.Statistics.{DistanceStats, no_distances, observe, increase}
use perfectvaluecubesymmetri.Fault.Stream.{Cipher, to_a1_tag_size}
use perfectvaluecubesymmetri.Fault.TagFaults.{CampaignCase, plus_if}
use perfectvaluecubesymmetri.Symmetric.{A1TagSize, TagSize, bits128, bits192, bits256, Aead}

-- `pvcmac0::TagSize`, by its three enumerators.
pub data MacTagSize : Type 0 where
  mac_bits128 mac_bits192 mac_bits256 : MacTagSize

-- `pvcaead0::frame_authentication_context` and `pvcmac0::frame_message`.
pub record Frames : Type 0 where
  pub frame_authentication_context : Bytes → Bytes → A1TagSize → Bytes
  pub frame_message : Bytes → Bytes → MacTagSize → Bytes

unfoldable pub to_mac_tag_size : TagSize → Result MacTagSize
to_mac_tag_size size =
    if size == bits128
    then ok mac_bits128
    else if size == bits192
    then ok mac_bits192
    else if size == bits256
    then ok mac_bits256
    else err (runtime_error "invalid RotSymEnc tag size")

unfoldable pub mac_frame_for_case : Frames → CampaignCase → Result Bytes
unfolding to_mac_tag_size
mac_frame_for_case frames c = do
  a1_size ← to_a1_tag_size c.tag_size
  let context = frames.frame_authentication_context c.nonce c.associated_data a1_size
  mac_size ← to_mac_tag_size c.tag_size
  ok (frames.frame_message context c.sealed.ciphertext mac_size)

-- What the loop over the state's bits reads: the state, the length of the frame, the canonical output,
-- and the part of an output that is compared.
pub record Baseline : Type 0 where
  pub state : WorkingState
  pub message_length : ℕ
  pub canonical : Bytes
  pub view : Bytes → Bytes

-- The loop over the last `count` bits of the state, from `bit` on.
pub fault_state_bits :
    Pvc1
    → Baseline
    → Bool
    → ℕ
    → ℕ
    → DistanceStats
    → StateLocalization
    → Result (DistanceStats × StateLocalization)
fault_state_bits pvc1 base localize zero bit stats localization = ok (stats, localization)
fault_state_bits pvc1 base localize (suc count) bit stats localization = do
  faulted_state ← flip_c1_state_bit pvc1 base.state bit
  let faulted = base.view (pvc1.bound_output faulted_state base.message_length)
  distance ← bit_distance (base.view base.canonical) faulted
  next ←
      (if localize
        then localize_state_fault localization bit distance (base.view base.canonical) faulted
        else ok localization)
  fault_state_bits pvc1 base localize count (suc bit) (observe stats distance) next

-- The state before finalization, checked against the canonical output.
pub stream_baseline : Pvc1 → Cipher → CampaignCase → Result Baseline
stream_baseline pvc1 cipher c = do
  size ← to_a1_tag_size c.tag_size
  let frame = cipher.frame_stream_block c.nonce 0 size
  let canonical = cipher.keyed_output c.keys.encryption_key frame
  let base_state = pvc1.evaluate c.keys.encryption_key frame
  require (same_bytes (pvc1.bound_output base_state (length frame)) canonical)
      (runtime_error "C1 stream state baseline output mismatch")
  ok (record {
    state = base_state;
    message_length = length frame;
    canonical = canonical;
    view = λ output. output;
  })

pub test_c1_stream_state_faults :
    Pvc1 → Cipher → CampaignCase → Bool → Result (DistanceStats × StateLocalization)
unfolding stream_baseline fault_state_bits
test_c1_stream_state_faults pvc1 cipher c localize = do
  base ← stream_baseline pvc1 cipher c
  fault_state_bits pvc1 base localize c1_state_bits 0 no_distances no_localization

-- The same for the MAC, whose output also begins with the sealed tag, with the messages of the two checks.
pub mac_baseline : Pvc1 → Cipher → Frames → String → String → CampaignCase → Result Baseline
unfolding mac_frame_for_case
mac_baseline pvc1 cipher frames tag_message output_message c = do
  mac_frame ← mac_frame_for_case frames c
  let tag = c.sealed.tag
  let canonical = cipher.keyed_output c.keys.authentication_key mac_frame
  require (same_bytes tag (take (length tag) canonical)) (runtime_error tag_message)
  let base_state = pvc1.evaluate c.keys.authentication_key mac_frame
  require (same_bytes (pvc1.bound_output base_state (length mac_frame)) canonical)
      (runtime_error output_message)
  ok (record {
    state = base_state;
    message_length = length mac_frame;
    canonical = canonical;
    view = take (length tag);
  })

-- The results of the cases, in order.
pub test_c1_mac_state_faults :
    Pvc1
    → Cipher
    → Frames
    → List CampaignCase
    → Bool
    → Result (List (DistanceStats × StateLocalization))
unfolding mac_baseline fault_state_bits
test_c1_mac_state_faults pvc1 cipher frames [] localize = ok []
test_c1_mac_state_faults pvc1 cipher frames (c ∷ cases) localize = do
  base ←
      mac_baseline pvc1 cipher frames "C1 MAC baseline does not match sealed tag"
        "C1 MAC state baseline output mismatch" c
  counts ← fault_state_bits pvc1 base localize c1_state_bits 0 no_distances no_localization
  rest ← test_c1_mac_state_faults pvc1 cipher frames cases localize
  ok (counts ∷ rest)

-- The counts of one profile; a candidate is a case, a state bit and a tag bit.
pub record Replication : Type 0 where
  pub aggregate : DistanceStats
  pub cases_with_unchanged : ℕ
  pub cases_with_one_bit : ℕ
  pub candidates : List (ℕ × (ℕ × ℕ))

-- The loop over the last `count` state bits of one case; the two numbers are the case's own.
pub replicate_bits :
    Pvc1 → Baseline → ℕ → ℕ → ℕ → ℕ → ℕ → DistanceStats → List (ℕ × (ℕ × ℕ)) → Result Replication
replicate_bits pvc1 base case_index zero bit unchanged one_bit aggregate candidates = ok (record {
  aggregate = aggregate;
  cases_with_unchanged = unchanged;
  cases_with_one_bit = one_bit;
  candidates = candidates;
})
replicate_bits pvc1 base case_index (suc count) bit unchanged one_bit aggregate candidates = do
  faulted_state ← flip_c1_state_bit pvc1 base.state bit
  let faulted = base.view (pvc1.bound_output faulted_state base.message_length)
  distance ← bit_distance (base.view base.canonical) faulted
  more ←
      (if distance == 1
        then (changed_bit (base.view base.canonical) faulted >>= λ tag_bit.
            ok (candidates ++ ((case_index, (bit, tag_bit)) ∷ [])))
        else ok candidates)
  replicate_bits pvc1 base case_index count (suc bit) (plus_if (distance == 0) unchanged)
      (plus_if (distance == 1) one_bit) (observe aggregate distance) more

-- The loop over the last `count` cases of a profile, with the generator's state.
pub replicate_cases :
    Aead → Pvc1 → Cipher → Frames → TagSize → ℕ → ℕ → ℕ → Replication → Result Replication
unfolding replicate_bits mac_baseline
replicate_cases a1 pvc1 cipher frames tag_size zero case_index random_state counts = ok counts
replicate_cases a1 pvc1 cipher frames tag_size (suc count) case_index random_state counts = do
  (c, next_state) ← make_case a1 random_state tag_size
  base ←
      mac_baseline pvc1 cipher frames "replication C1 MAC baseline does not match sealed tag"
        "replication C1 MAC state baseline output mismatch" c
  found ← replicate_bits pvc1 base case_index c1_state_bits 0 0 0 counts.aggregate counts.candidates
  replicate_cases a1 pvc1 cipher frames tag_size count (suc case_index) next_state (record {
    aggregate = found.aggregate;
    cases_with_unchanged = plus_if (ltb 0 found.cases_with_unchanged) counts.cases_with_unchanged;
    cases_with_one_bit = plus_if (ltb 0 found.cases_with_one_bit) counts.cases_with_one_bit;
    candidates = found.candidates;
  })

-- `kReplicationCasesPerProfile`.
abbrev pub replication_cases_per_profile : ℕ
replication_cases_per_profile = 8

-- The state of the generator that a profile starts from.
pub profile_state : ℕ → ℕ
profile_state profile_index = bit_xor seed (11400714819323198485 * (profile_index + 1) % 2 ^ 64)

-- The loop over the profiles, from `profile_index` on.
pub replicate_profiles :
    Aead → Pvc1 → Cipher → Frames → List TagSize → ℕ → Result (List Replication)
unfolding replicate_cases profile_state
replicate_profiles a1 pvc1 cipher frames [] profile_index = ok []
replicate_profiles a1 pvc1 cipher frames (tag_size ∷ profiles) profile_index = do
  found ←
      replicate_cases a1 pvc1 cipher frames tag_size replication_cases_per_profile 0
        (profile_state profile_index)
        (record {
          aggregate = no_distances;
          cases_with_unchanged = 0;
          cases_with_one_bit = 0;
          candidates = [];
        })
  rest ← replicate_profiles a1 pvc1 cipher frames profiles (suc profile_index)
  ok (found ∷ rest)

abbrev pub profiles : List TagSize
profiles = bits128 ∷ bits192 ∷ bits256 ∷ []

pub test_c1_mac_state_replication : Aead → Pvc1 → Cipher → Frames → Result (List Replication)
unfolding replicate_profiles
test_c1_mac_state_replication a1 pvc1 cipher frames =
    replicate_profiles a1 pvc1 cipher frames profiles 0

-- ===== src/Fault/Families.antt =====
-- `classify_cube_faults`, the overlaps of `print_family_overlap`, and `test_fault_dependency_families` of
-- analysis/fault_injection_campaign.cpp, up to the printing.
pub mod Overlaps
use perfectvaluecubesymmetri.Base.{
  ℕ, zero, suc, ◌+◌, ◌*◌, ◌/◌, ◌^◌, ◌%◌, Bool, true, false, not, ◌&&◌, ◌||◌, List, String, [], ◌∷◌,
  bit_xor, ◌==◌, if◌then◌else◌, min, max, same_bytes, Bytes, length, take, replicate, map, Result,
  ok, ◌>>=◌, ◌>>◌, require, runtime_error,
}
use perfectvaluecubesymmetri.Fault.Bits.{bit_distance}
use perfectvaluecubesymmetri.Fault.Campaigns.{
  Frames, mac_frame_for_case, profiles, replication_cases_per_profile,
}
use perfectvaluecubesymmetri.Fault.Cases.{associated_data_bytes, plaintext_bytes, seal_case}
use perfectvaluecubesymmetri.Fault.Random.{random_vector}
use perfectvaluecubesymmetri.Fault.Regions.{cube_state_bits}
use perfectvaluecubesymmetri.Fault.State.{
  WorkingState, Pvc1, StateDistance, working_state_distance, flip_c1_state_bit,
}
use perfectvaluecubesymmetri.Fault.Stream.{Cipher}
use perfectvaluecubesymmetri.Fault.TagFaults.{CampaignCase}
use perfectvaluecubesymmetri.Symmetric.{KeyPair512, TagSize, Aead, tag_size_bytes}

-- `std::bitset<kCubeStateBits>`, its first bit first.
abbrev pub CubeFaultSet : Type 0
CubeFaultSet = List Bool

pub record FamilyFaultSets : Type 0 where
  pub unchanged : CubeFaultSet
  pub one_bit : CubeFaultSet

-- The check that a fault stands in the cube alone.
abbrev pub is_cube_fault : StateDistance → Bool
is_cube_fault distance =
    distance.cube_bits == 1 && distance.controller_bits == 0 && distance.metadata_bits == 0

-- The loop over the last `count` bits, from `state_bit` on.
pub classify_bits : Pvc1 → WorkingState → Bytes → ℕ → ℕ → ℕ → ℕ → Result FamilyFaultSets
classify_bits pvc1 base canonical message_length tag_bytes zero state_bit =
    ok (record { unchanged = []; one_bit = [] })
classify_bits pvc1 base canonical message_length tag_bytes (suc count) state_bit = do
  faulted_state ← flip_c1_state_bit pvc1 base state_bit
  require (is_cube_fault (working_state_distance pvc1 base faulted_state))
      (runtime_error "family fault was not present exactly at finalizer entry")
  let faulted = pvc1.bound_output faulted_state message_length
  distance ← bit_distance (take tag_bytes canonical) (take tag_bytes faulted)
  rest ← classify_bits pvc1 base canonical message_length tag_bytes count (suc state_bit)
  ok (record {
    unchanged = (distance == 0) ∷ rest.unchanged;
    one_bit = (distance == 1) ∷ rest.one_bit;
  })

pub classify_cube_faults : Pvc1 → WorkingState → Bytes → ℕ → ℕ → Result FamilyFaultSets
unfolding classify_bits
classify_cube_faults pvc1 base canonical message_length tag_bytes =
    classify_bits pvc1 base canonical message_length tag_bytes cube_state_bits 0

-- `operator&`, `operator|` and `count` of bitsets.
pub set_and : CubeFaultSet → CubeFaultSet → CubeFaultSet
set_and (a ∷ left) (b ∷ right) = (a && b) ∷ set_and left right
set_and _ _ = []

pub set_or : CubeFaultSet → CubeFaultSet → CubeFaultSet
set_or [] right = right
set_or (a ∷ left) [] = a ∷ left
set_or (a ∷ left) (b ∷ right) = (a || b) ∷ set_or left right

pub set_count : CubeFaultSet → ℕ
set_count [] = 0
set_count (b ∷ bits) = if b then suc (set_count bits) else set_count bits

-- `intersection`, `combined` and `total` after the first loop.
pub combine :
    List CubeFaultSet → CubeFaultSet → CubeFaultSet → ℕ → (CubeFaultSet × CubeFaultSet) × ℕ
unfolding set_and set_or set_count
combine [] intersection combined total = ((intersection, combined), total)
combine (selected ∷ cases) intersection combined total =
    combine cases (set_and intersection selected) (set_or combined selected)
      (total + set_count selected)

-- `pair_count`, `pair_min_ppm` and `pair_max_ppm`.
pub record PairCounts : Type 0 where
  pub count : ℕ
  pub min_ppm : ℕ
  pub max_ppm : ℕ

-- The body of the loops over the pairs.
pub observe_pair : CubeFaultSet → CubeFaultSet → PairCounts → PairCounts
unfolding set_and set_or set_count
observe_pair left right pairs =
    let pair_union = set_count (set_or left right) in
    let ppm = set_count (set_and left right) * 1000000 / pair_union in
    if pair_union == 0 then pairs else record {
      count = suc pairs.count;
      min_ppm = min pairs.min_ppm ppm;
      max_ppm = max pairs.max_ppm ppm;
    }

-- The inner loop, of one set with the later ones, and the outer one.
pub observe_later : CubeFaultSet → List CubeFaultSet → PairCounts → PairCounts
unfolding observe_pair
observe_later left [] pairs = pairs
observe_later left (right ∷ cases) pairs = observe_later left cases (observe_pair left right pairs)

pub observe_pairs : List CubeFaultSet → PairCounts → PairCounts
unfolding observe_later
observe_pairs [] pairs = pairs
observe_pairs (left ∷ cases) pairs = observe_pairs cases (observe_later left cases pairs)

pub record Overlap : Type 0 where
  pub total_selected : ℕ
  pub intersection : ℕ
  pub union : ℕ
  pub pairs : PairCounts

pub family_overlap : List CubeFaultSet → Overlap
unfolding combine observe_pairs set_count
family_overlap cases =
    let (sets, total) =
      combine cases (replicate cube_state_bits true) (replicate cube_state_bits false) 0 in
    let pairs = observe_pairs cases (record { count = 0; min_ppm = 1000000; max_ppm = 0 }) in
    record {
      total_selected = total;
      intersection = set_count sets.0;
      union = set_count sets.1;
      pairs = if pairs.count == 0 then record pairs { min_ppm = 0 } else pairs;
    }

-- The two lines that are printed for a family.
abbrev pub overlaps : List FamilyFaultSets → Overlap × Overlap
overlaps family = (
  family_overlap (map (λ (s : FamilyFaultSets). s.unchanged) family),
  family_overlap (map (λ (s : FamilyFaultSets). s.one_bit) family),
)

-- The sets of one state, whose finalization is checked first, with the message of the failure.
pub family_member : Pvc1 → Cipher → String → Bytes → Bytes → ℕ → Result FamilyFaultSets
unfolding classify_cube_faults
family_member pvc1 cipher message authentication_key frame tag_bytes = do
  let canonical = cipher.keyed_output authentication_key frame
  let base_state = pvc1.evaluate authentication_key frame
  require (same_bytes (pvc1.bound_output base_state (length frame)) canonical)
      (runtime_error message)
  classify_cube_faults pvc1 base_state canonical (length frame) tag_bytes

-- What all members of the nonce family share.
pub record Fixed : Type 0 where
  pub keys : KeyPair512
  pub associated_data : Bytes
  pub plaintext : Bytes
  pub tag_size : TagSize

-- The loop over the last `count` nonces: the sets, the frames, and the generator's state.
pub nonce_family :
    Aead → Pvc1 → Cipher → Frames → Fixed → ℕ → ℕ → Result ((List FamilyFaultSets × List Bytes) × ℕ)
unfolding family_member
nonce_family a1 pvc1 cipher frames fixed zero random_state = ok (([], []), random_state)
nonce_family a1 pvc1 cipher frames fixed (suc count) random_state = do
  let (nonce, next_state) = random_vector random_state 24
  c ←
      seal_case a1 "nonce-family canonical round trip failed" fixed.keys nonce fixed.associated_data
        fixed.plaintext fixed.tag_size
  mac_frame ← mac_frame_for_case frames c
  member ←
      family_member pvc1 cipher "nonce-family finalizer baseline mismatch"
        fixed.keys.authentication_key mac_frame (length c.sealed.tag)
  (rest, last_state) ← nonce_family a1 pvc1 cipher frames fixed count next_state
  ok ((member ∷ rest.0, mac_frame ∷ rest.1), last_state)

-- The loop over the last `count` authentication keys, with the frame of the first nonce.
pub key_family : Pvc1 → Cipher → Bytes → ℕ → ℕ → ℕ → Result (List FamilyFaultSets)
unfolding family_member
key_family pvc1 cipher fixed_frame tag_bytes zero random_state = ok []
key_family pvc1 cipher fixed_frame tag_bytes (suc count) random_state = do
  let (authentication_key, next_state) = random_vector random_state 32
  member ←
      family_member pvc1 cipher "key-family finalizer baseline mismatch" authentication_key
        fixed_frame tag_bytes
  rest ← key_family pvc1 cipher fixed_frame tag_bytes count next_state
  ok (member ∷ rest)

-- `fixed_frame`: the first frame, or the empty one it is declared as.
abbrev pub first_frame : List Bytes → Bytes
first_frame [] = []
first_frame (frame ∷ frames) = frame

-- `kFamilySeed`, mixed with the profile's number.
pub family_state : ℕ → ℕ
family_state profile_index =
    bit_xor 5062421242460913997 (15111065706836454659 * (profile_index + 1) % 2 ^ 64)

-- One profile: the overlaps of its two families.
pub profile_families :
    Aead → Pvc1 → Cipher → Frames → TagSize → ℕ → Result ((Overlap × Overlap) × (Overlap × Overlap))
unfolding nonce_family key_family
profile_families a1 pvc1 cipher frames tag_size random_state = do
  let (encryption_key, state) = random_vector random_state 32
  let (authentication_key, state) = random_vector state 32
  require (not (same_bytes encryption_key authentication_key))
      (runtime_error "family role keys unexpectedly match")
  let (associated_data, state) = random_vector state associated_data_bytes
  let (plaintext, state) = random_vector state plaintext_bytes
  let fixed : Fixed = record {
    keys = record { encryption_key = encryption_key; authentication_key = authentication_key };
    associated_data = associated_data;
    plaintext = plaintext;
    tag_size = tag_size;
  }
  (members, state) ← nonce_family a1 pvc1 cipher frames fixed replication_cases_per_profile state
  by_key ←
      key_family pvc1 cipher (first_frame members.1) (tag_size_bytes tag_size)
        replication_cases_per_profile state
  ok (overlaps members.0, overlaps by_key)

-- The loop over the profiles, from `profile_index` on.
pub families_from :
    Aead
    → Pvc1
    → Cipher
    → Frames
    → List TagSize
    → ℕ
    → Result (List ((Overlap × Overlap) × (Overlap × Overlap)))
unfolding profile_families family_state
families_from a1 pvc1 cipher frames [] profile_index = ok []
families_from a1 pvc1 cipher frames (tag_size ∷ sizes) profile_index = do
  found ← profile_families a1 pvc1 cipher frames tag_size (family_state profile_index)
  rest ← families_from a1 pvc1 cipher frames sizes (suc profile_index)
  ok (found ∷ rest)

pub test_fault_dependency_families :
    Aead → Pvc1 → Cipher → Frames → Result (List ((Overlap × Overlap) × (Overlap × Overlap)))
unfolding families_from
test_fault_dependency_families a1 pvc1 cipher frames =
    families_from a1 pvc1 cipher frames profiles 0

-- ===== src/Fault/Released.antt =====
-- `test_authentication_branch_skip` and `test_post_authentication_faults` of
-- analysis/fault_injection_campaign.cpp, up to their printing.
pub mod Forgeries
pub mod Branches
pub mod Counters
use perfectvaluecubesymmetri.Base.{
  ℕ, zero, suc, ◌+◌, ◌*◌, ◌/◌, ◌^◌, Bool, true, false, not, Option, none, some, List, [], ◌∷◌, ◌==◌,
  if◌then◌else◌, same_bytes, Bytes, length, Result, ok, err, ◌>>=◌, ◌>>◌, require, runtime_error,
}
use perfectvaluecubesymmetri.Fault.Bits.{flip_nonce_bit, bit_distance}
use perfectvaluecubesymmetri.Fault.Cases.{opens_as}
use perfectvaluecubesymmetri.Fault.Statistics.{DistanceStats, no_distances, observe}
use perfectvaluecubesymmetri.Fault.Stream.{Cipher, apply_stream}
use perfectvaluecubesymmetri.Fault.TagFaults.{CampaignCase, plus_if}
use perfectvaluecubesymmetri.Fault.TagFaults.Skips.{flip_lowest}
use perfectvaluecubesymmetri.Symmetric.{Aead, open_sealed}

-- What `open` is called with in one variant.
pub record Variant : Type 0 where
  pub nonce : Bytes
  pub associated_data : Bytes
  pub ciphertext : Bytes
  pub tag : Bytes

-- The fields of the case, unchanged.
abbrev pub unchanged : CampaignCase → Variant
unchanged c = record {
  nonce = c.nonce;
  associated_data = c.associated_data;
  ciphertext = c.sealed.ciphertext;
  tag = c.sealed.tag;
}

-- The `switch` over the variants.
unfoldable pub mutate : CampaignCase → ℕ → Result Variant
mutate c zero = ok (record (unchanged c) { tag = flip_lowest c.sealed.tag 0 })
mutate c (suc zero) = ok (record (unchanged c) { ciphertext = flip_lowest c.sealed.ciphertext 0 })
mutate c (suc (suc zero)) =
    flip_nonce_bit c.nonce 0 >>= λ nonce. ok (record (unchanged c) { nonce = nonce })
mutate c (suc (suc (suc zero))) =
    ok (record (unchanged c) { associated_data = flip_lowest c.associated_data 0 })
mutate c (suc (suc (suc (suc variant)))) = err (runtime_error "invalid branch-skip variant")

pub record ReleaseCounts : Type 0 where
  pub attempts : ℕ
  pub canonical_acceptances : ℕ
  pub model_plaintext_releases : ℕ
  pub model_wrong_plaintexts : ℕ

abbrev pub no_releases : ReleaseCounts
no_releases = record {
  attempts = 0;
  canonical_acceptances = 0;
  model_plaintext_releases = 0;
  model_wrong_plaintexts = 0;
}

abbrev pub has_value : Option Bytes → Bool
has_value none = false
has_value (some plaintext) = true

-- The body of the inner loop.
pub skip_branch : Aead → Cipher → CampaignCase → ReleaseCounts → ℕ → Result ReleaseCounts
unfolding mutate
skip_branch a1 cipher c counts variant = do
  v ← mutate c variant
  opened ← open_sealed a1 c.keys v.nonce v.associated_data v.ciphertext v.tag
  released ← apply_stream cipher c.keys.encryption_key v.nonce v.ciphertext c.tag_size none 0
  ok (record {
    attempts = suc counts.attempts;
    canonical_acceptances = plus_if (has_value opened) counts.canonical_acceptances;
    model_plaintext_releases = suc counts.model_plaintext_releases;
    model_wrong_plaintexts =
        plus_if (not (same_bytes released c.plaintext)) counts.model_wrong_plaintexts;
  })

-- The inner loop over the last `count` variants, from `variant` on.
pub skip_branches : Aead → Cipher → CampaignCase → ReleaseCounts → ℕ → ℕ → Result ReleaseCounts
unfolding skip_branch
skip_branches a1 cipher c counts zero variant = ok counts
skip_branches a1 cipher c counts (suc count) variant = do
  next ← skip_branch a1 cipher c counts variant
  skip_branches a1 cipher c next count (suc variant)

pub skip_all_branches : Aead → Cipher → List CampaignCase → ReleaseCounts → Result ReleaseCounts
unfolding skip_branches
skip_all_branches a1 cipher [] counts = ok counts
skip_all_branches a1 cipher (c ∷ cases) counts = do
  next ← skip_branches a1 cipher c counts 4 0
  skip_all_branches a1 cipher cases next

pub test_authentication_branch_skip : Aead → Cipher → List CampaignCase → Result ReleaseCounts
unfolding skip_all_branches
test_authentication_branch_skip a1 cipher cases = do
  counts ← skip_all_branches a1 cipher cases no_releases
  require (counts.canonical_acceptances == 0)
      (runtime_error "canonical open accepted a branch-skip control mutation")
  require (counts.model_plaintext_releases == counts.attempts)
      (runtime_error "branch-skip model did not release plaintext")
  ok counts

-- One faulted stream after the authentication, and its distance from the plaintext.
pub release_distance :
    Cipher → CampaignCase → Bytes → Option ℕ → ℕ → DistanceStats → Result DistanceStats
release_distance cipher c nonce faulted_block counter_xor stats = do
  faulted ←
      apply_stream cipher c.keys.encryption_key nonce c.sealed.ciphertext c.tag_size faulted_block
        counter_xor
  distance ← bit_distance faulted c.plaintext
  ok (observe stats distance)

-- The loop over the last `count` bits of one block's counter.
pub fault_counter_bits : Cipher → CampaignCase → ℕ → ℕ → ℕ → DistanceStats → Result DistanceStats
unfolding release_distance
fault_counter_bits cipher c block zero bit stats = ok stats
fault_counter_bits cipher c block (suc count) bit stats = do
  next ← release_distance cipher c c.nonce (some block) (2 ^ bit) stats
  fault_counter_bits cipher c block count (suc bit) next

-- The loop over the last `count` blocks.
pub fault_counters : Cipher → CampaignCase → ℕ → ℕ → DistanceStats → Result DistanceStats
unfolding fault_counter_bits
fault_counters cipher c zero block stats = ok stats
fault_counters cipher c (suc count) block stats = do
  next ← fault_counter_bits cipher c block 64 0 stats
  fault_counters cipher c count (suc block) next

-- The loop over the last `count` bits of the nonce.
pub fault_nonces : Cipher → CampaignCase → ℕ → ℕ → DistanceStats → Result DistanceStats
unfolding release_distance
fault_nonces cipher c zero bit stats = ok stats
fault_nonces cipher c (suc count) bit stats = do
  nonce ← flip_nonce_bit c.nonce bit
  next ← release_distance cipher c nonce none 0 stats
  fault_nonces cipher c count (suc bit) next

pub test_post_authentication_faults :
    Aead → Cipher → CampaignCase → Result (DistanceStats × DistanceStats)
unfolding fault_counters fault_nonces
test_post_authentication_faults a1 cipher c = do
  opened ← open_sealed a1 c.keys c.nonce c.associated_data c.sealed.ciphertext c.sealed.tag
  require (opens_as opened c.plaintext)
      (runtime_error "post-authentication fault baseline did not authenticate")
  let blocks = length c.sealed.ciphertext / 32
  require (blocks == 3) (runtime_error "counter fault case does not have three full blocks")
  counter_stats ← fault_counters cipher c blocks 0 no_distances
  nonce_stats ← fault_nonces cipher c (length c.nonce * 8) 0 no_distances
  ok (counter_stats, nonce_stats)

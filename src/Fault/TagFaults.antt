-- ===== src/Fault/TagFaults.antt =====
-- `CampaignCase` and `test_tag_and_mac_result_bits` of analysis/fault_injection_campaign.cpp, up to its
-- printing.
pub mod Rejected
pub mod Skips
pub mod Lengths
use perfectvaluecubesymmetri.Base.{
  ℕ, zero, suc, ◌*◌, Bool, true, false, none, some, List, [], ◌∷◌, ◌==◌, if◌then◌else◌, Bytes,
  length, Result, ok, ◌>>=◌, ◌>>◌, require, runtime_error,
}
use perfectvaluecubesymmetri.Symmetric.{KeyPair512, SealedMessage, TagSize, Aead, open_sealed}
use perfectvaluecubesymmetri.Fault.Bits.{flip_vector_bit}
use perfectvaluecubesymmetri.Fault.Comparison.{comparison_model}

pub record CampaignCase : Type 0 where
  pub keys : KeyPair512
  pub nonce : Bytes
  pub associated_data : Bytes
  pub plaintext : Bytes
  pub tag_size : TagSize
  pub sealed : SealedMessage

-- `open(...).has_value()` with another tag than the sealed one.
unfoldable pub accepts : Aead → CampaignCase → Bytes → Result Bool
accepts a1 c tag = do
  opened ← open_sealed a1 c.keys c.nonce c.associated_data c.sealed.ciphertext tag
  ok (elim opened [ none ↦ false | some plaintext ↦ true ])

pub record TagCounts : Type 0 where
  pub attempts : ℕ
  pub acceptances : ℕ
  pub mac_result_faults : ℕ
  pub canonical_acceptances : ℕ

-- `if (condition) ++counter;`
abbrev pub plus_if : Bool → ℕ → ℕ
plus_if condition counter = if condition then suc counter else counter

-- The body of the inner loop for one bit.
pub fault_tag_bit : Aead → CampaignCase → TagCounts → ℕ → Result TagCounts
unfolding accepts
fault_tag_bit a1 c counts bit = do
  supplied ← flip_vector_bit c.sealed.tag bit
  accepted ← accepts a1 c supplied
  faulted_result ← flip_vector_bit c.sealed.tag bit
  canonical ← comparison_model faulted_result c.sealed.tag (length faulted_result) none
  ok (record {
    attempts = suc counts.attempts;
    acceptances = plus_if accepted counts.acceptances;
    mac_result_faults = suc counts.mac_result_faults;
    canonical_acceptances = plus_if canonical counts.canonical_acceptances;
  })

-- The inner loop over the last `count` bits, from `bit` on.
pub fault_tag_bits : Aead → CampaignCase → TagCounts → ℕ → ℕ → Result TagCounts
unfolding fault_tag_bit
fault_tag_bits a1 c counts zero bit = ok counts
fault_tag_bits a1 c counts (suc count) bit = do
  next ← fault_tag_bit a1 c counts bit
  fault_tag_bits a1 c next count (suc bit)

-- The outer loop.
pub fault_tags : Aead → List CampaignCase → TagCounts → Result TagCounts
unfolding fault_tag_bits
fault_tags a1 [] counts = ok counts
fault_tags a1 (c ∷ cases) counts = do
  next ← fault_tag_bits a1 c counts (length c.sealed.tag * 8) 0
  fault_tags a1 cases next

abbrev pub no_tag_counts : TagCounts
no_tag_counts = record {
  attempts = 0;
  acceptances = 0;
  mac_result_faults = 0;
  canonical_acceptances = 0;
}

pub test_tag_and_mac_result_bits : Aead → List CampaignCase → Result TagCounts
unfolding fault_tags
test_tag_and_mac_result_bits a1 cases = do
  counts ← fault_tags a1 cases no_tag_counts
  require (counts.acceptances == 0) (runtime_error "canonical open accepted a one-bit tag fault")
  require (counts.canonical_acceptances == 0)
      (runtime_error "faulted MAC result accepted the canonical tag in comparison model")
  ok counts

-- ===== src/Fault/TagFaults/Lengths.antt =====
-- `test_tag_length_faults` of analysis/fault_injection_campaign.cpp, up to its printing.
pub mod Refused
use perfectvaluecubesymmetri.Base.{
  ℕ, zero, suc, ◌-◌, ◌^◌, List, [], ◌∷◌, ◌++◌, ◌==◌, if◌then◌else◌, bit_xor, min, Bytes, length,
  take, replicate, none, Result, ok, ◌>>=◌, ◌>>◌, require, runtime_error,
}
use perfectvaluecubesymmetri.Fault.Comparison.{comparison_model}
use perfectvaluecubesymmetri.Fault.TagFaults.{CampaignCase, accepts, plus_if}
use perfectvaluecubesymmetri.Fault.TagFaults.Skips.{BypassCounts, no_bypasses, flip_lowest}
use perfectvaluecubesymmetri.Symmetric.{Aead}

pub record LengthCounts : Type 0 where
  pub attempts : ℕ
  pub acceptances : ℕ

-- The tag cut, or filled up with zeros, to another length.
unfoldable pub resized : Bytes → ℕ → Bytes
resized tag changed_length =
    let copied = min (length tag) changed_length in
    take copied tag ++ replicate (changed_length - copied) 0

-- The inner loop over the last `count` bits of the length, from `bit` on.
pub resize_bits : Aead → CampaignCase → LengthCounts → ℕ → ℕ → Result LengthCounts
unfolding resized
resize_bits a1 c counts zero bit = ok counts
resize_bits a1 c counts (suc count) bit = do
  accepted ← accepts a1 c (resized c.sealed.tag (bit_xor (length c.sealed.tag) (2 ^ bit)))
  resize_bits a1 c
      (record { attempts = suc counts.attempts; acceptances = plus_if accepted counts.acceptances })
      count (suc bit)

-- The loop over the cases before validation.
pub resize_each : Aead → List CampaignCase → LengthCounts → Result LengthCounts
unfolding resize_bits
resize_each a1 [] counts = ok counts
resize_each a1 (c ∷ cases) counts = do next ← resize_bits a1 c counts 6 0; resize_each a1 cases next

-- `supplied` and `comparison_length` after validation: the flipped byte is not compared.
abbrev pub shortened : Bytes → Bytes × ℕ
shortened tag =
    if length tag == 24 then (flip_lowest tag (length tag - 1), 16) else (flip_lowest tag 0, 0)

-- One case after validation.
pub shorten_one : Aead → CampaignCase → BypassCounts → Result BypassCounts
shorten_one a1 c counts = do
  let (supplied, comparison_length) = shortened c.sealed.tag
  accepted ← accepts a1 c supplied
  bypassed ← comparison_model c.sealed.tag supplied comparison_length none
  ok (record {
    attempts = suc counts.attempts;
    canonical_acceptances = plus_if accepted counts.canonical_acceptances;
    model_bypasses = plus_if bypassed counts.model_bypasses;
  })

-- The loop over the cases after validation.
pub shorten_each : Aead → List CampaignCase → BypassCounts → Result BypassCounts
unfolding shorten_one
shorten_each a1 [] counts = ok counts
shorten_each a1 (c ∷ cases) counts = do next ← shorten_one a1 c counts; shorten_each a1 cases next

pub test_tag_length_faults : Aead → List CampaignCase → Result (LengthCounts × BypassCounts)
unfolding resize_each shorten_each
test_tag_length_faults a1 cases = do
  before ← resize_each a1 cases (record { attempts = 0; acceptances = 0 })
  require (before.acceptances == 0)
      (runtime_error "canonical open accepted a one-bit pre-validation length fault")
  after ← shorten_each a1 cases no_bypasses
  require (after.canonical_acceptances == 0)
      (runtime_error "canonical open accepted a post-validation length control tag")
  require (after.model_bypasses == after.attempts)
      (runtime_error "post-validation length model did not bypass its omitted mismatch")
  ok (before, after)

-- ===== src/Fault/TagFaults/Rejected.antt =====
-- Sealed cases in the loops over the tag bits of analysis/fault_injection_campaign.cpp.
use perfectvaluecubesymmetri.Base.{ℕ, ◌+◌, ◌*◌, ◌≡◌, List, [], ◌∷◌, length, ok}
use perfectvaluecubesymmetri.Symmetric.{Aead, seal}
use perfectvaluecubesymmetri.Symmetric.Profile.{Fits}
use perfectvaluecubesymmetri.Fault.TagFaults.{CampaignCase, TagCounts}

-- What `make_case` establishes: the message is sealed under the fields of the case.
pub record IsSealed (a1 : Aead) (c : CampaignCase) : Type 0 where
  pub fits : Fits c.associated_data
  pub sealed : seal a1 c.keys c.nonce c.associated_data c.plaintext c.tag_size ≡ ok c.sealed

abbrev pub AllSealed : Aead → List CampaignCase → Type 0
AllSealed a1 [] = Unit
AllSealed a1 (c ∷ cases) = IsSealed a1 c × AllSealed a1 cases

abbrev pub tag_bits : List CampaignCase → ℕ
tag_bits [] = 0
tag_bits (c ∷ cases) = length c.sealed.tag * 8 + tag_bits cases

-- The counts after `n` more faults, none of them accepted.
abbrev pub refused_more : TagCounts → ℕ → TagCounts
refused_more counts n = record counts {
  attempts = counts.attempts + n;
  mac_result_faults = counts.mac_result_faults + n;
}

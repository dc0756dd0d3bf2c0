-- ===== src/Fault/Campaigns/CountedMac.antt =====
-- The campaign on the MAC's state, over the loop over its bits.
use perfectvaluecubesymmetri.Base.{ℕ, ◌≡◌, Bool, List, [], ◌∷◌, Bytes, length, take, ok}
use perfectvaluecubesymmetri.Fault.Campaigns.{Baseline, Frames, mac_frame_for_case}
use perfectvaluecubesymmetri.Fault.Localization.{StateLocalization}
use perfectvaluecubesymmetri.Fault.State.{Pvc1}
use perfectvaluecubesymmetri.Fault.Statistics.{DistanceStats}
use perfectvaluecubesymmetri.Fault.Stream.{Cipher}
use perfectvaluecubesymmetri.Fault.TagFaults.{CampaignCase}
use perfectvaluecubesymmetri.Fault.Campaigns.Counted.{IsCounted}

abbrev pub mac_base : Pvc1 → Cipher → CampaignCase → Bytes → Baseline
mac_base pvc1 cipher c frame = record {
  state = pvc1.evaluate c.keys.authentication_key frame;
  message_length = length frame;
  canonical = cipher.keyed_output c.keys.authentication_key frame;
  view = take (length c.sealed.tag);
}

-- The tag of a case is the beginning of the keyed output on its frame, as PVC-MAC-0 defines it.
abbrev pub HasMacTag : Cipher → Frames → CampaignCase → Type 0
HasMacTag cipher frames c =
    (frame : Bytes) × (mac_frame_for_case frames c ≡ ok frame)
    × (c.sealed.tag
        ≡ take (length c.sealed.tag) (cipher.keyed_output c.keys.authentication_key frame))

abbrev pub AllMacTags : Cipher → Frames → List CampaignCase → Type 0
AllMacTags cipher frames [] = Unit
AllMacTags cipher frames (c ∷ cases) = HasMacTag cipher frames c × AllMacTags cipher frames cases

-- One result of the campaign, for the frame of its case.
abbrev pub HasCounted :
    Pvc1 → Cipher → Frames → Bool → DistanceStats × StateLocalization → CampaignCase → Type 0
HasCounted pvc1 cipher frames localize result c =
    (frame : Bytes) × (distances : List ℕ) × (mac_frame_for_case frames c ≡ ok frame)
    × IsCounted pvc1 (mac_base pvc1 cipher c frame) localize result.0 result.1 4224 distances

abbrev pub AllCounted :
    Pvc1
    → Cipher
    → Frames
    → Bool
    → List (DistanceStats × StateLocalization)
    → List CampaignCase
    → Type 0
AllCounted pvc1 cipher frames localize [] [] = Unit
AllCounted pvc1 cipher frames localize (r ∷ results) (c ∷ cases) =
    HasCounted pvc1 cipher frames localize r c
    × AllCounted pvc1 cipher frames localize results cases
AllCounted pvc1 cipher frames localize _ _ = ⊥

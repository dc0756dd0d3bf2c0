-- ===== src/Fault/Released/Counters.antt =====
-- Sealed cases in the loops of `test_post_authentication_faults`.
use perfectvaluecubesymmetri.Base.{ℕ, ◌^◌, ◌≡◌, ◌/◌, ◌%◌, Option, none, some, Bytes, length, ok}
use perfectvaluecubesymmetri.Fault.Bits.{flip_nonce_bit, bit_distance}
use perfectvaluecubesymmetri.Fault.Stream.{Cipher, to_a1_tag_size, apply_stream}
use perfectvaluecubesymmetri.Fault.TagFaults.{CampaignCase}
use perfectvaluecubesymmetri.Symmetric.{A1TagSize}

-- What the test needs of its case: texts of three blocks and a profile that there is.
pub record IsReleasable (c : CampaignCase) (size : A1TagSize) : Type 0 where
  pub named : to_a1_tag_size c.tag_size ≡ ok size
  pub plaintext_length : length c.plaintext ≡ 96
  pub ciphertext_length : length c.sealed.ciphertext ≡ 96

-- The distance of the plaintext from what a faulted stream releases.
abbrev pub HasReleaseDistance : Cipher → CampaignCase → Bytes → Option ℕ → ℕ → ℕ → Type 0
HasReleaseDistance cipher c nonce faulted counter_xor d =
    (released : Bytes) × (apply_stream cipher c.keys.encryption_key nonce c.sealed.ciphertext
        c.tag_size faulted counter_xor
      ≡ ok released)
    × (bit_distance released c.plaintext ≡ ok d)

-- Fault `i` of the counters flips bit `i % 64` of the counter of block `i / 64`.
abbrev pub HasCounterDistance : Cipher → CampaignCase → ℕ → ℕ → Type 0
HasCounterDistance cipher c i d =
    HasReleaseDistance cipher c c.nonce (some (i / 64)) (2 ^ (i % 64)) d

-- Fault `i` of the nonce flips its bit `i`.
abbrev pub HasNonceDistance : Cipher → CampaignCase → ℕ → ℕ → Type 0
HasNonceDistance cipher c i d =
    (nonce : Bytes) × (flip_nonce_bit c.nonce i ≡ ok nonce)
    × HasReleaseDistance cipher c nonce none 0 d

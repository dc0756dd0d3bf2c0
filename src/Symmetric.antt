-- ===== src/Symmetric.antt =====
-- The wrapper of include/pvcrotsymenc1/symmetric_encryption.hpp and src/symmetric_encryption.cpp. The
-- vendored PVC-AEAD-0 Candidate A1 that it calls is the parameter `Aead`.
pub mod Profile
pub mod Messages
pub mod Toy
mod Tests
use perfectvaluecubesymmetri.Base.{
  ℕ, Bool, ◌||◌, Option, Bytes, ◌==◌, if◌then◌else◌, Result, ok, err, ◌>>=◌, invalid_argument,
}

-- An enumerator of `enum class TagSize : std::uint8_t` by its underlying value. The type also holds the
-- values that no enumerator names.
abbrev pub TagSize : Type 0
TagSize = ℕ

abbrev pub bits128 : TagSize
bits128 = 16

abbrev pub bits192 : TagSize
bits192 = 24

abbrev pub bits256 : TagSize
bits256 = 32

pub record KeyPair512 : Type 0 where
  pub encryption_key : Bytes
  pub authentication_key : Bytes

pub record SealedMessage : Type 0 where
  pub ciphertext : Bytes
  pub tag : Bytes

-- `pvcaead0::TagSize`, by its three enumerators.
pub data A1TagSize : Type 0 where
  a1_bits128 a1_bits192 a1_bits256 : A1TagSize

-- The two entry points of `pvcaead0`. Its own `KeyPair512` and `SealedMessage` have the wrapper's fields.
pub record Aead : Type 0 where
  pub seal : KeyPair512 → Bytes → Bytes → Bytes → A1TagSize → Result SealedMessage
  pub open_sealed : KeyPair512 → Bytes → Bytes → Bytes → Bytes → Result (Option Bytes)

abbrev pub tag_size_bytes : TagSize → ℕ
tag_size_bytes size = size

pub to_a1_keys : KeyPair512 → KeyPair512
to_a1_keys keys = record {
  encryption_key = keys.encryption_key;
  authentication_key = keys.authentication_key;
}

pub to_a1_nonce : Bytes → Bytes
to_a1_nonce nonce = nonce

unfoldable pub to_a1_tag_size : TagSize → Result A1TagSize
to_a1_tag_size size =
    if size == bits128
    then ok a1_bits128
    else if size == bits192
    then ok a1_bits192
    else if size == bits256
    then ok a1_bits256
    else err (invalid_argument "unsupported PVC-RotSymEnc-1 tag size")

unfoldable pub is_supported_tag_size : ℕ → Bool
is_supported_tag_size bytes = bytes == 16 || bytes == 24 || bytes == 32

pub tag_size_from_bytes : ℕ → Result TagSize
tag_size_from_bytes bytes =
    if bytes == 16
    then ok bits128
    else if bytes == 24
    then ok bits192
    else if bytes == 32
    then ok bits256
    else err (invalid_argument "PVC-RotSymEnc-1 tag size must be 16, 24, or 32 bytes")

unfoldable pub seal : Aead → KeyPair512 → Bytes → Bytes → Bytes → TagSize → Result SealedMessage
unfolding to_a1_keys to_a1_nonce to_a1_tag_size
seal a1 keys nonce associated_data plaintext tag_size = do
  size ← to_a1_tag_size tag_size
  sealed ← a1.seal (to_a1_keys keys) (to_a1_nonce nonce) associated_data plaintext size
  ok (record { ciphertext = sealed.ciphertext; tag = sealed.tag })

pub open_sealed : Aead → KeyPair512 → Bytes → Bytes → Bytes → Bytes → Result (Option Bytes)
unfolding to_a1_keys to_a1_nonce
open_sealed a1 keys nonce associated_data ciphertext supplied_tag =
    a1.open_sealed (to_a1_keys keys) (to_a1_nonce nonce) associated_data ciphertext supplied_tag

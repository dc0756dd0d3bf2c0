-- ===== src/Symmetric/Profile.antt =====
-- What SPECIFICATION.md promises of the vendored PVC-AEAD-0 A1: the ciphertext is the plaintext under a
-- keystream, the tag is the MAC of the ciphertext, and `open` checks the tag before it decrypts.
use perfectvaluecubesymmetri.Base.{
  ℕ, ◌+◌, ◌^◌, ◌<◌, ◌≡◌, refl, ap₂, false, Option, none, some, [], ◌∷◌, arith, same_bytes, bit_xor,
  Bytes, AllBytes, length, if◌then◌else◌, ok,
}
use perfectvaluecubesymmetri.Base.Xor.{bit_xor_cancel, bit_xor_common, bit_xor-lt}
use perfectvaluecubesymmetri.Symmetric.{
  KeyPair512, SealedMessage, A1TagSize, a1_bits128, a1_bits192, a1_bits256, Aead,
  is_supported_tag_size,
}

-- The loop `output[i] = input[i] ^ stream[i]`.
unfoldable pub xor_bytes : Bytes → Bytes → Bytes
xor_bytes [] stream = []
xor_bytes (x ∷ xs) [] = x ∷ xs
xor_bytes (x ∷ xs) (k ∷ stream) = bit_xor x k ∷ xor_bytes xs stream

pub length-xor_bytes : (xs stream : Bytes) → length (xor_bytes xs stream) ≡ length xs
unfolding xor_bytes
length-xor_bytes [] stream = refl
length-xor_bytes (x ∷ xs) [] = refl
length-xor_bytes (x ∷ xs) (k ∷ stream) = omega (arith, length-xor_bytes xs stream)

pub xor_bytes_cancel : (xs stream : Bytes) → xor_bytes (xor_bytes xs stream) stream ≡ xs
unfolding xor_bytes
xor_bytes_cancel [] stream = refl
xor_bytes_cancel (x ∷ xs) [] = refl
xor_bytes_cancel (x ∷ xs) (k ∷ stream) = ap₂ ◌∷◌ (bit_xor_cancel x k) (xor_bytes_cancel xs stream)

-- The same, where the keystream is as long as the text.
pub xor_bytes_restore :
    (f : ℕ → Bytes) (xs : Bytes)
    → let ys = xor_bytes xs (f (length xs)) in xor_bytes ys (f (length ys)) ≡ xs
xor_bytes_restore f xs =
    rw (length-xor_bytes xs (f (length xs))) (xor_bytes_cancel xs (f (length xs)))

-- Two texts under one keystream differ as the texts do.
pub xor_bytes_common :
    (xs ys stream : Bytes)
    → length xs ≡ length stream
    → length ys ≡ length stream
    → xor_bytes (xor_bytes xs stream) (xor_bytes ys stream) ≡ xor_bytes xs ys
unfolding xor_bytes
xor_bytes_common [] ys stream p q = refl
xor_bytes_common (x ∷ xs) [] [] p q = refl
xor_bytes_common (x ∷ xs) [] (k ∷ stream) p q = absurd (omega arith)
xor_bytes_common (x ∷ xs) (y ∷ ys) [] p q = absurd (omega arith)
xor_bytes_common (x ∷ xs) (y ∷ ys) (k ∷ stream) p q =
    ap₂ ◌∷◌ (bit_xor_common x y k) (xor_bytes_common xs ys stream (omega arith) (omega arith))

pub xor_bytes-AllBytes :
    (xs stream : Bytes) → AllBytes xs → AllBytes stream → AllBytes (xor_bytes xs stream)
unfolding xor_bytes
xor_bytes-AllBytes [] stream h k = tt
xor_bytes-AllBytes (x ∷ xs) [] h k = h
xor_bytes-AllBytes (x ∷ xs) (b ∷ stream) h k =
    (bit_xor-lt 8 x b h.0 k.0, xor_bytes-AllBytes xs stream h.1 k.1)

abbrev pub a1_tag_bytes : A1TagSize → ℕ
a1_tag_bytes a1_bits128 = 16
a1_tag_bytes a1_bits192 = 24
a1_tag_bytes a1_bits256 = 32

-- The keystream and the MAC of SPECIFICATION.md, of which only that they are bytes and
-- their lengths are used.
pub record Primitives : Type 0 where
  pub stream : Bytes → Bytes → A1TagSize → ℕ → Bytes
  pub mac : Bytes → Bytes → Bytes → Bytes → A1TagSize → Bytes
  pub stream_length :
      (key nonce : Bytes) (size : A1TagSize) (n : ℕ) → length (stream key nonce size n) ≡ n
  pub mac_length :
      (key nonce associated_data ciphertext : Bytes) (size : A1TagSize)
      → length (mac key nonce associated_data ciphertext size) ≡ a1_tag_bytes size
  pub stream_bytes :
      (key nonce : Bytes) (size : A1TagSize) (n : ℕ) → AllBytes (stream key nonce size n)
  pub mac_bytes :
      (key nonce associated_data ciphertext : Bytes) (size : A1TagSize)
      → AllBytes (mac key nonce associated_data ciphertext size)

-- The framing of the associated data holds its length and 49 more bytes in 64 bits.
abbrev pub Fits : Bytes → Type 0
Fits associated_data = length associated_data + 49 < 2 ^ 64

unfoldable pub a1_seal : Primitives → KeyPair512 → Bytes → Bytes → Bytes → A1TagSize → SealedMessage
unfolding xor_bytes
a1_seal p keys nonce associated_data plaintext size =
    let ciphertext =
      xor_bytes plaintext (p.stream keys.encryption_key nonce size (length plaintext)) in
    record {
      ciphertext = ciphertext;
      tag = p.mac keys.authentication_key nonce associated_data ciphertext size;
    }

unfoldable pub a1_open :
    Primitives → KeyPair512 → Bytes → Bytes → Bytes → Bytes → A1TagSize → Option Bytes
unfolding xor_bytes
a1_open p keys nonce associated_data ciphertext tag size =
    if same_bytes tag (p.mac keys.authentication_key nonce associated_data ciphertext size)
    then some (xor_bytes ciphertext (p.stream keys.encryption_key nonce size (length ciphertext)))
    else none

-- The documented behaviour of `pvcaead0::seal` and `pvcaead0::open`.
pub record Documented (a1 : Aead) (p : Primitives) : Type 0 where
  pub seals :
      (keys : KeyPair512) (nonce associated_data plaintext : Bytes) (size : A1TagSize)
      → Fits associated_data
      → a1.seal keys nonce associated_data plaintext size
        ≡ ok (a1_seal p keys nonce associated_data plaintext size)
  pub opens :
      (keys : KeyPair512) (nonce associated_data ciphertext tag : Bytes) (size : A1TagSize)
      → Fits associated_data
      → length tag ≡ a1_tag_bytes size
      → a1.open_sealed keys nonce associated_data ciphertext tag
        ≡ ok (a1_open p keys nonce associated_data ciphertext tag size)
  pub refuses :
      (keys : KeyPair512) (nonce associated_data ciphertext tag : Bytes)
      → is_supported_tag_size (length tag) ≡ false
      → a1.open_sealed keys nonce associated_data ciphertext tag ≡ ok none

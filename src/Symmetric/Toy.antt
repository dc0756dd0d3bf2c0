-- ===== src/Symmetric/Toy.antt =====
-- An A1 that behaves as documented, to apply the theorems to.
use perfectvaluecubesymmetri.Base.{
  ℕ, ◌+◌, ◌%◌, ◌≡◌, refl, none, arith, ◌==◌, if◌then◌else◌, Bytes, AllBytes, length, get_or,
  replicate, length-replicate, ok, zero, suc,
}
use perfectvaluecubesymmetri.Symmetric.{
  KeyPair512, A1TagSize, a1_bits128, a1_bits192, a1_bits256, Aead, is_supported_tag_size,
}
use perfectvaluecubesymmetri.Symmetric.Profile.{
  Primitives, a1_tag_bytes, a1_seal, a1_open, Documented,
}

pub AllBytes-replicate : (n b : ℕ) → AllBytes (replicate n (b % 256))
AllBytes-replicate zero b = tt
AllBytes-replicate (suc n) b = (omega arith, AllBytes-replicate n b)

-- The keystream repeats one byte of the key and the nonce; the MAC repeats one of its inputs.
abbrev pub toy : Primitives
toy = record {
  stream = λ key nonce size n. replicate n ((get_or key 0 0 + get_or nonce 0 0) % 256);
  mac = λ key nonce ad ciphertext size.
      replicate (a1_tag_bytes size)
        ((get_or key 0 0 + get_or nonce 0 0 + get_or ad 0 0 + get_or ciphertext 0 0) % 256);
  stream_length = λ key nonce size n. length-replicate n _;
  mac_length = λ key nonce ad ciphertext size. length-replicate (a1_tag_bytes size) _;
  stream_bytes = λ key nonce size n. AllBytes-replicate n _;
  mac_bytes = λ key nonce ad ciphertext size. AllBytes-replicate (a1_tag_bytes size) _;
}

abbrev pub toy_a1 : Aead
toy_a1 = record {
  seal = λ keys nonce ad plaintext size. ok (a1_seal toy keys nonce ad plaintext size);
  open_sealed = λ keys nonce ad ciphertext tag.
      if length tag == 16
      then ok (a1_open toy keys nonce ad ciphertext tag a1_bits128)
      else if length tag == 24
      then ok (a1_open toy keys nonce ad ciphertext tag a1_bits192)
      else if length tag == 32
      then ok (a1_open toy keys nonce ad ciphertext tag a1_bits256)
      else ok none;
}

toy_opens :
    (keys : KeyPair512) (nonce ad ciphertext tag : Bytes) (size : A1TagSize)
    → length tag ≡ a1_tag_bytes size
    → toy_a1.open_sealed keys nonce ad ciphertext tag
      ≡ ok (a1_open toy keys nonce ad ciphertext tag size)
toy_opens keys nonce ad ciphertext tag a1_bits128 h = ground arith
toy_opens keys nonce ad ciphertext tag a1_bits192 h = ground arith
toy_opens keys nonce ad ciphertext tag a1_bits256 h = ground arith

pub toy-Documented : Documented toy_a1 toy
unfolding is_supported_tag_size
toy-Documented = record {
  seals = λ keys nonce ad plaintext size fits. refl;
  opens = λ keys nonce ad ciphertext tag size fits h. toy_opens keys nonce ad ciphertext tag size h;
  refuses = λ keys nonce ad ciphertext tag h. ground arith;
}

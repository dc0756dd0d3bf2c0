-- ===== src/Fuzz/Differential.antt =====
-- What the harnesses of fuzz/ compare on an input, for any two implementations.
pub mod Opens
use perfectvaluecubesymmetri.Base.{
  ℕ, ◌+◌, ◌-◌, ◌*◌, ◌%◌, ◌^◌, ◌≤◌, ◌<◌, ◌≡◌, ◌↔◌, refl, ap, sym, ◌∙◌, subst, min, inl, inr,
  Result-cases, Option, none, some, true, false, arith, leb, ◌==◌, if◌then◌else◌, Bytes, ◌++◌, Bool,
  get_or, length, take, drop, replicate, length-take, length-drop, same_bytes, same_bytes_eq,
  same_bytes_refl, ok, Bool-cases,
}
use perfectvaluecubesymmetri.Symmetric.{
  KeyPair512, SealedMessage, TagSize, A1TagSize, a1_bits128, a1_bits192, a1_bits256, Aead, seal,
  open_sealed,
}
use perfectvaluecubesymmetri.Symmetric.Profile.{a1_tag_bytes}
use perfectvaluecubesymmetri.Fuzz.{
  Verdict, passed, select_tag_profiles, select_tag_profile, raw_tag_size, compare_open_results,
  compare_seals, compare_valid, compare_raw, seal_fields, open_valid, open_raw, supplied_tag,
  seal_harness, open_harness,
}
use perfectvaluecubesymmetri.Fuzz.Reader.{
  reader, take_byte, padded, fields_read, first_read, second_read, split_index, split_index-le,
  AreFields, remaining,
}

-- The fields of an input behind its first bytes: a hint of two bytes, two keys, a nonce, the rest.
abbrev pub hint_at : Bytes → ℕ
hint_at left = get_or left 0 0 * 256 % 2 ^ 16 + get_or (drop 1 left) 0 0

abbrev pub keys_at : Bytes → KeyPair512
keys_at left = record {
  encryption_key = padded 32 (drop 2 left);
  authentication_key = padded 32 (drop 34 left);
}

abbrev pub nonce_at : Bytes → Bytes
nonce_at left = padded 24 (drop 66 left)

abbrev pub payload_at : Bytes → Bytes
payload_at left = drop 90 left

-- The size of the associated data in a part of the payload.
abbrev pub split_at : ℕ → Bytes → ℕ
split_at hint part = hint % (length part + 1)

-- Both implementations seal one message.
abbrev pub AgreeOnSeal : Aead → Aead → KeyPair512 → Bytes → Bytes → Bytes → A1TagSize → Type 0
AgreeOnSeal a1 other keys nonce ad plaintext s =
    (m : SealedMessage) × (seal a1 keys nonce ad plaintext (a1_tag_bytes s) ≡ ok m)
    × (other.seal keys nonce ad plaintext s ≡ ok m)

-- Both implementations open what the other one sealed.
abbrev pub AgreeOnValid : Aead → Aead → KeyPair512 → Bytes → Bytes → Bytes → A1TagSize → Type 0
AgreeOnValid a1 other keys nonce ad plaintext s =
    (m : SealedMessage) × (other.seal keys nonce ad plaintext s ≡ ok m)
    × (open_sealed a1 keys nonce ad m.ciphertext m.tag ≡ ok (some plaintext))
    × (other.open_sealed keys nonce ad m.ciphertext m.tag ≡ ok (some plaintext))

abbrev pub HasSize : Option Bytes → ℕ → Type 0
HasSize none n = Unit
HasSize (some plaintext) n = length plaintext ≡ n

-- Both implementations give one answer, and a plaintext has the size of the ciphertext.
abbrev pub AgreeOnRaw : Aead → Aead → KeyPair512 → Bytes → Bytes → Bytes → Bytes → Type 0
AgreeOnRaw a1 other keys nonce ad ciphertext tag =
    (answer : Option Bytes) × (open_sealed a1 keys nonce ad ciphertext tag ≡ ok answer)
    × (other.open_sealed keys nonce ad ciphertext tag ≡ ok answer)
    × HasSize answer (length ciphertext)

same_messages :
    (m m' : SealedMessage)
    → same_bytes m.ciphertext m'.ciphertext ≡ true
    → same_bytes m.tag m'.tag ≡ true
    → m' ≡ m
same_messages m m' c t =
    rw (same_bytes_eq m.ciphertext m'.ciphertext c, same_bytes_eq m.tag m'.tag t)

compare_seals_iff :
    (a1 other : Aead) (keys : KeyPair512) (nonce ad plaintext : Bytes) (s : A1TagSize)
    → (compare_seals a1 other keys nonce ad plaintext (a1_tag_bytes s, s) ≡ passed)
      ↔ AgreeOnSeal a1 other keys nonce ad plaintext s
unfolding compare_seals
compare_seals_iff a1 other keys nonce ad plaintext s = (
  λ h. elim (Result-cases (seal a1 keys nonce ad plaintext (a1_tag_bytes s))) [
    | inr (x, e) ↦ absurd (ground (arith, e, h))
    | inl (m, e) ↦ elim (Result-cases (other.seal keys nonce ad plaintext s)) [
      | inr (x, f) ↦ absurd (ground (arith, e, f, h))
      | inl (m', f) ↦
          let c : same_bytes m.ciphertext m'.ciphertext ≡ true = ground (arith, e, f, h) in
          let t : same_bytes m.tag m'.tag ≡ true = ground (arith, e, f, h) in
          (m, e, f ∙ ap ok (same_messages m m' c t))
    ]
  ],
  λ (m, e, f). rw (e, f, same_bytes_refl m.ciphertext, same_bytes_refl m.tag) refl,
)

pub profiles_named :
    (selector : ℕ) (s : A1TagSize)
    → a1_tag_bytes s ≡ 16 + 8 * (selector % 3)
    → (select_tag_profiles selector ≡ (a1_tag_bytes s, s)) × (select_tag_profile selector ≡ s)
unfolding select_tag_profiles select_tag_profile
profiles_named selector a1_bits128 e = (ground (arith, e), ground (arith, e))
profiles_named selector a1_bits192 e = (ground (arith, e), ground (arith, e))
profiles_named selector a1_bits256 e = (ground (arith, e), ground (arith, e))

seal_fields_eq :
    (a1 other : Aead) (selector hint : ℕ) (keys : KeyPair512) (nonce payload : Bytes)
    (s : A1TagSize)
    → length payload < 2 ^ 64 - 1
    → a1_tag_bytes s ≡ 16 + 8 * (selector % 3)
    → seal_fields a1 other selector hint keys nonce payload
      ≡ compare_seals a1 other keys nonce
          (take (split_at hint payload) payload)
          (drop (split_at hint payload) payload)
          (a1_tag_bytes s, s)
unfolding seal_fields
seal_fields_eq a1 other selector hint keys nonce payload s h e =
    let (split, small) = split_index-le hint (length payload) h in
    let inside : leb (split_at hint payload) (length payload) ≡ true =
      ground (arith, split, small) in
    rw (split, inside, (profiles_named selector s e).0) refl

-- The seal harness ends normally exactly on the inputs on which the two implementations, whatever they
-- are, seal one message; no span is used out of its range. The first byte chooses the tag size; behind
-- it stand the hint, the two keys and the nonce, filled up with zeros where the input ends before, and
-- the payload, which the hint splits into the associated data and the plaintext. A `std::size_t` holds
-- the size of the input.
pub seal_harness_iff :
    (a1 other : Aead) (bytes : Bytes) (s : A1TagSize)
    → length bytes < 2 ^ 64 - 1
    → a1_tag_bytes s ≡ 16 + 8 * (get_or bytes 0 0 % 3)
    → let left = drop 1 bytes in
      let payload = payload_at left in
      let ad_size = split_at (hint_at left) payload in
      (seal_harness a1 other bytes ≡ passed)
      ↔ AgreeOnSeal a1 other
          (keys_at left)
          (nonce_at left)
          (take ad_size payload)
          (drop ad_size payload)
          s
unfolding seal_harness
seal_harness_iff a1 other bytes s h e =
    let (selector, at, inside) = first_read bytes in
    let fields : AreFields (drop 1 bytes) (take_byte (reader bytes)).1 =
      subst (λ (ys : Bytes). AreFields ys (take_byte (reader bytes)).1) at
        (fields_read (take_byte (reader bytes)).1 inside) in
    let left = drop 1 bytes in
    let room : length (payload_at left) < 2 ^ 64 - 1 =
      omega (arith, length-drop 90 left, length-drop 1 bytes) in
    rw
      (
        selector,
        fields.hint,
        fields.encryption_key,
        fields.authentication_key,
        fields.nonce,
        fields.payload,
        seal_fields_eq a1 other (get_or bytes 0 0) (hint_at left) (keys_at left) (nonce_at left)
            (payload_at left) s room e,
      )
      (compare_seals_iff a1 other (keys_at left) (nonce_at left)
        (take (split_at (hint_at left) (payload_at left)) (payload_at left))
        (drop (split_at (hint_at left) (payload_at left)) (payload_at left)) s)

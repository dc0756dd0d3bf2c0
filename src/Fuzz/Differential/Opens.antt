-- ===== src/Fuzz/Differential/Opens.antt =====
-- What the open harness compares on an input, for any two implementations.
use perfectvaluecubesymmetri.Base.{
  ℕ, ◌+◌, ◌-◌, ◌*◌, ◌%◌, ◌^◌, ◌<◌, ◌≡◌, ◌↔◌, refl, ap, sym, ◌∙◌, subst, min, inl, inr, Result-cases,
  Option, none, some, true, false, arith, leb, ◌==◌, ==_iff, if◌then◌else◌, Bytes, ◌++◌, Bool,
  get_or, length, take, drop, replicate, length-take, length-drop, same_bytes_eq, same_bytes_refl,
  ok, Bool-cases,
}
use perfectvaluecubesymmetri.Symmetric.{KeyPair512, SealedMessage, A1TagSize, Aead, open_sealed}
use perfectvaluecubesymmetri.Symmetric.Profile.{a1_tag_bytes}
use perfectvaluecubesymmetri.Fuzz.{
  passed, raw_tag_size, compare_open_results, compare_valid, compare_raw, open_valid, open_raw,
  supplied_tag, open_harness, size_minus,
}
use perfectvaluecubesymmetri.Fuzz.Reader.{
  reader, take_byte, fields_read, first_read, second_read, split_index-le, AreFields,
}
use perfectvaluecubesymmetri.Fuzz.Differential.{
  hint_at, keys_at, nonce_at, payload_at, split_at, AgreeOnValid, AgreeOnRaw, HasSize,
  profiles_named,
}

compare_valid_iff :
    (a1 other : Aead) (keys : KeyPair512) (nonce ad plaintext : Bytes) (s : A1TagSize)
    → (compare_valid a1 other keys nonce ad plaintext s ≡ passed)
      ↔ AgreeOnValid a1 other keys nonce ad plaintext s
unfolding compare_valid compare_open_results
compare_valid_iff a1 other keys nonce ad plaintext s = (
  λ h. elim (Result-cases (other.seal keys nonce ad plaintext s)) [
    | inr (x, e) ↦ absurd (ground (arith, e, h))
    | inl (m, e) ↦ elim (Result-cases (open_sealed a1 keys nonce ad m.ciphertext m.tag)) [
      | inr (x, f) ↦ absurd (ground (arith, e, f, h))
      | inl (a, f) ↦ elim (Result-cases (other.open_sealed keys nonce ad m.ciphertext m.tag)) [
        | inr (x, g) ↦ absurd (ground (arith, e, f, g, h))
        | inl (b, g) ↦
            let (left, right) = both m a b e f g h in (m, e, f ∙ ap ok left, g ∙ ap ok right)
      ]
    ]
  ],
  λ (m, e, f, g). rw (e, f, g, same_bytes_refl plaintext) refl,
)
  where
    both :
        (m : SealedMessage) (a b : Option Bytes)
        → other.seal keys nonce ad plaintext s ≡ ok m
        → open_sealed a1 keys nonce ad m.ciphertext m.tag ≡ ok a
        → other.open_sealed keys nonce ad m.ciphertext m.tag ≡ ok b
        → compare_valid a1 other keys nonce ad plaintext s ≡ passed
        → (a ≡ some plaintext) × (b ≡ some plaintext)
    both m none none e f g h = absurd (ground (arith, e, f, g, h))
    both m none (some y) e f g h = absurd (ground (arith, e, f, g, h))
    both m (some x) none e f g h = absurd (ground (arith, e, f, g, h))
    both m (some x) (some y) e f g h =
        let same : x ≡ y = same_bytes_eq x y (ground (arith, e, f, g, h)) in
        let right : x ≡ plaintext = same_bytes_eq x plaintext (ground (arith, e, f, g, h)) in
        (ap some right, ap some (sym same ∙ right))

compare_raw_iff :
    (a1 other : Aead) (keys : KeyPair512) (nonce ad ciphertext tag : Bytes)
    → (compare_raw a1 other keys nonce ad ciphertext tag ≡ passed)
      ↔ AgreeOnRaw a1 other keys nonce ad ciphertext tag
unfolding compare_raw compare_open_results
compare_raw_iff a1 other keys nonce ad ciphertext tag = (
  λ h. elim (Result-cases (open_sealed a1 keys nonce ad ciphertext tag)) [
    | inr (x, f) ↦ absurd (ground (arith, f, h))
    | inl (a, f) ↦ elim (Result-cases (other.open_sealed keys nonce ad ciphertext tag)) [
      | inr (x, g) ↦ absurd (ground (arith, f, g, h))
      | inl (b, g) ↦ let (same, size) = both a b f g h in (a, f, g ∙ ap ok same, size)
    ]
  ],
  λ (answer, f, g, size). passes answer f g size,
)
  where
    both :
        (a b : Option Bytes)
        → open_sealed a1 keys nonce ad ciphertext tag ≡ ok a
        → other.open_sealed keys nonce ad ciphertext tag ≡ ok b
        → compare_raw a1 other keys nonce ad ciphertext tag ≡ passed
        → (b ≡ a) × HasSize a (length ciphertext)
    both none none f g h = (refl, tt)
    both none (some y) f g h = absurd (ground (arith, f, g, h))
    both (some x) none f g h = absurd (ground (arith, f, g, h))
    both (some x) (some y) f g h =
        let size : length x == length ciphertext ≡ true = ground (arith, f, g, h) in
        (
          ap some (sym (same_bytes_eq x y (ground (arith, f, g, h)))),
          (==_iff (length x) (length ciphertext)).0 size,
        )

    passes :
        (a : Option Bytes)
        → open_sealed a1 keys nonce ad ciphertext tag ≡ ok a
        → other.open_sealed keys nonce ad ciphertext tag ≡ ok a
        → HasSize a (length ciphertext)
        → compare_raw a1 other keys nonce ad ciphertext tag ≡ passed
    passes none f g size = rw (f, g) refl
    passes (some x) f g size =
        rw (f, g, same_bytes_refl x, (==_iff (length x) (length ciphertext)).1 size) refl

open_valid_eq :
    (a1 other : Aead) (selector hint : ℕ) (keys : KeyPair512) (nonce payload : Bytes)
    (s : A1TagSize)
    → length payload < 2 ^ 64 - 1
    → a1_tag_bytes s ≡ 16 + 8 * (selector % 3)
    → open_valid a1 other selector hint keys nonce payload
      ≡ compare_valid a1 other keys nonce
          (take (split_at hint payload) payload)
          (drop (split_at hint payload) payload)
          s
unfolding open_valid
open_valid_eq a1 other selector hint keys nonce payload s h e =
    let (split, small) = split_index-le hint (length payload) h in
    let inside : leb (split_at hint payload) (length payload) ≡ true =
      ground (arith, split, small) in
    rw (split, inside, (profiles_named selector s e).1) refl

-- The size of the tag that the letters a, b and c ask for, and any other byte by its value.
abbrev pub size_asked : ℕ → ℕ
size_asked selector =
    if selector == 97
    then 16
    else if selector == 98
    then 24
    else if selector == 99
    then 32
    else selector

-- The part of the payload before the tag, and the tag: its last bytes, behind zeros where they are too
-- few.
abbrev pub body_of : ℕ → Bytes → Bytes
body_of asked payload = take (length payload - min asked (length payload)) payload

abbrev pub tag_of : ℕ → Bytes → Bytes
tag_of asked payload =
    replicate (asked - min asked (length payload)) 0
    ++ drop (length payload - min asked (length payload)) payload

open_raw_eq :
    (a1 other : Aead) (selector hint : ℕ) (keys : KeyPair512) (nonce payload : Bytes)
    → length payload < 2 ^ 64 - 1
    → let asked = size_asked selector in
      let body = body_of asked payload in
      open_raw a1 other selector hint keys nonce payload
      ≡ compare_raw a1 other keys nonce
          (take (split_at hint body) body)
          (drop (split_at hint body) body)
          (tag_of asked payload)
unfolding open_raw supplied_tag raw_tag_size
open_raw_eq a1 other selector hint keys nonce payload h =
    let asked = size_asked selector in
    let copied = min asked (length payload) in
    let body = body_of asked payload in
    let minus : size_minus (length payload) copied ≡ length payload - copied = omega (arith, h) in
    let short : leb (length payload - copied) (length payload) ≡ true = ground arith in
    let tag_inside : leb copied (length payload) ≡ true = ground arith in
    let copied_inside : leb copied asked ≡ true = ground arith in
    let (split, small) =
      split_index-le hint (length body)
        (omega (arith, h, length-take (length payload - copied) payload)) in
    let inside : leb (split_at hint body) (length body) ≡ true = ground (arith, split, small) in
    rw (minus, short, split, inside, tag_inside, copied_inside) refl

-- Whether the branch of the open harness for an odd first byte, or the one for an even byte, agrees.
abbrev pub AgreeOnOpen : Aead → Aead → Bool → ℕ → Bytes → A1TagSize → Type 0
AgreeOnOpen a1 other true tag_selector left s =
    let payload = payload_at left in
    let ad_size = split_at (hint_at left) payload in
    AgreeOnValid a1 other (keys_at left) (nonce_at left) (take ad_size payload)
      (drop ad_size payload) s
AgreeOnOpen a1 other false tag_selector left s =
    let asked = size_asked tag_selector in
    let body = body_of asked (payload_at left) in
    let ad_size = split_at (hint_at left) body in
    AgreeOnRaw a1 other (keys_at left) (nonce_at left) (take ad_size body) (drop ad_size body)
      (tag_of asked (payload_at left))

-- The open harness ends normally exactly on the inputs on which the two implementations, whatever they
-- are, agree; no span is used out of its range and no difference of sizes wraps around. The first byte
-- chooses the branch and the second one the size of the tag. An odd first byte seals the split payload
-- first, and both implementations have to open that message to its plaintext; otherwise the payload is
-- split into associated data, ciphertext and tag, and both have to give one answer, where a plaintext
-- has the size of the ciphertext. A `std::size_t` holds the size of the input.
pub open_harness_iff :
    (a1 other : Aead) (bytes : Bytes) (s : A1TagSize)
    → length bytes < 2 ^ 64 - 1
    → a1_tag_bytes s ≡ 16 + 8 * (get_or (drop 1 bytes) 0 0 % 3)
    → (open_harness a1 other bytes ≡ passed)
      ↔ AgreeOnOpen a1 other
          (get_or bytes 0 0 % 2 == 1)
          (get_or (drop 1 bytes) 0 0)
          (drop 2 bytes)
          s
unfolding open_harness
open_harness_iff a1 other bytes s h e =
    let mode = (first_read bytes).0 in
    let (selector, at, inside) = second_read bytes in
    let start = (take_byte (take_byte (reader bytes)).1).1 in
    let left = drop 2 bytes in
    let fields : AreFields left start =
      subst (λ (ys : Bytes). AreFields ys start) at (fields_read start inside) in
    let room : length (payload_at left) < 2 ^ 64 - 1 =
      omega (arith, length-drop 90 left, length-drop 2 bytes) in
    let payload = payload_at left in
    let asked = size_asked (get_or (drop 1 bytes) 0 0) in
    let body = body_of asked payload in
    rw
      (
        mode, selector, fields.hint, fields.encryption_key, fields.authentication_key, fields.nonce,
        fields.payload,
      )
      (elim (Bool-cases (get_or bytes 0 0 % 2 == 1)) [
        | inl odd ↦
            rw
              (
                odd,
                open_valid_eq a1 other (get_or (drop 1 bytes) 0 0) (hint_at left) (keys_at left)
                    (nonce_at left) payload s room e,
              )
              (compare_valid_iff a1 other (keys_at left) (nonce_at left)
                (take (split_at (hint_at left) payload) payload)
                (drop (split_at (hint_at left) payload) payload) s)
        | inr even ↦
            rw
              (
                even,
                open_raw_eq a1 other (get_or (drop 1 bytes) 0 0) (hint_at left) (keys_at left)
                    (nonce_at left) payload room,
              )
              (compare_raw_iff a1 other (keys_at left) (nonce_at left)
                (take (split_at (hint_at left) body) body)
                (drop (split_at (hint_at left) body) body) (tag_of asked payload))
      ])

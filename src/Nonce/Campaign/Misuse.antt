-- ===== src/Nonce/Campaign/Misuse.antt =====
-- `test_reuse_detector_and_xor` of analysis/nonce_misuse_campaign.cpp, up to its printing.
use perfectvaluecubesymmetri.Base.{
  ℕ, zero, suc, ◌%◌, ◌≡◌, refl, sym, subst, ◌∙◌, Bool, true, false, not, Option, none, some, [],
  ◌∷◌, bit_xor, ◌==◌, arith, Bytes, length, Result, ok, require, ◌>>=◌, ◌>>◌, runtime_error,
}
use perfectvaluecubesymmetri.Base.Xor.{bit_xor_common}
use perfectvaluecubesymmetri.Nonce.Campaign.{
  nonce_from_counter, key_with_offset, ascending, write_counter,
}
use perfectvaluecubesymmetri.Nonce.Detector.{
  NonceObservation, fresh, reused, observe, observations, empty, contains, same_pair,
}
use perfectvaluecubesymmetri.Symmetric.{
  KeyPair512, SealedMessage, Aead, a1_bits256, bits256, seal, open_sealed,
}
use perfectvaluecubesymmetri.Symmetric.Messages.{
  seal-eq, open_sealed-iff-seal, to_a1_tag_size_named,
}
use perfectvaluecubesymmetri.Symmetric.Profile.{
  Primitives, Documented, a1_seal, Fits, xor_bytes, length-xor_bytes,
}

abbrev pub is_reused : NonceObservation → Bool
is_reused fresh = false
is_reused reused = true

-- The checks on the detector.
pub reuse_detector : Bytes → Bytes → Bytes → Result (Unit {0})
reuse_detector first_key second_key nonce = do
  let (first, detector) = observe first_key nonce empty
  require (not (is_reused first)) (runtime_error "first nonce observation was not fresh")
  let (second, detector) = observe first_key nonce detector
  require (is_reused second) (runtime_error "same-key nonce reuse was not detected")
  let (third, detector) = observe second_key nonce detector
  require (not (is_reused third)) (runtime_error "different-key nonce was incorrectly rejected")
  require (observations detector == 2) (runtime_error "reuse detector observation count mismatch")

-- The loop that fills the two plaintexts, over the last `count` places.
pub second_bytes : ℕ → ℕ → Bytes
second_bytes zero index = []
second_bytes (suc count) index = bit_xor 240 (index % 256) ∷ second_bytes count (suc index)

-- The loop over the ciphertexts, which stand first; there is a byte of each plaintext for each byte
-- of the ciphertexts.
pub xor_relation : Bytes → Bytes → Bytes → Bytes → Result (Unit {0})
xor_relation (c ∷ first) (d ∷ second) (x ∷ xs) (y ∷ ys) = do
  require (bit_xor c d == bit_xor x y) (runtime_error "nonce reuse XOR relation missing")
  xor_relation first second xs ys
xor_relation _ _ _ _ = ok tt

abbrev pub has_value : Option Bytes → Bool
has_value none = false
has_value (some plaintext) = true

pub test_reuse_detector_and_xor : Aead → Result (Unit {0})
unfolding reuse_detector second_bytes xor_relation
test_reuse_detector_and_xor a1 = do
  let first_key = key_with_offset 16
  let nonce = nonce_from_counter 7
  reuse_detector first_key (key_with_offset 144) nonce
  let keys : KeyPair512 = record {
    encryption_key = first_key;
    authentication_key = key_with_offset 80;
  }
  let first_plaintext = ascending 96 0 0
  let second_plaintext = second_bytes 96 0
  let first_ad = 1 ∷ 2 ∷ 3 ∷ []
  let second_ad = 4 ∷ 5 ∷ 6 ∷ 7 ∷ []
  first ← seal a1 keys nonce first_ad first_plaintext bits256
  second ← seal a1 keys nonce second_ad second_plaintext bits256
  require (length first.ciphertext == length second.ciphertext)
      (runtime_error "nonce reuse ciphertext length mismatch")
  xor_relation first.ciphertext second.ciphertext first_plaintext second_plaintext
  first_opened ← open_sealed a1 keys nonce first_ad first.ciphertext first.tag
  require (has_value first_opened) (runtime_error "first reused-nonce message did not authenticate")
  second_opened ← open_sealed a1 keys nonce second_ad second.ciphertext second.tag
  require (has_value second_opened)
      (runtime_error "second reused-nonce message did not authenticate")

-- Texts under one keystream pass the loop.
xor_relation-xor_bytes :
    (xs ys stream : Bytes)
    → length xs ≡ length stream
    → length ys ≡ length stream
    → xor_relation (xor_bytes xs stream) (xor_bytes ys stream) xs ys ≡ ok tt
unfolding xor_relation xor_bytes
xor_relation-xor_bytes [] ys stream p q = refl
xor_relation-xor_bytes (x ∷ xs) [] [] p q = refl
xor_relation-xor_bytes (x ∷ xs) [] (k ∷ stream) p q = absurd (omega arith)
xor_relation-xor_bytes (x ∷ xs) (y ∷ ys) [] p q = absurd (omega arith)
xor_relation-xor_bytes (x ∷ xs) (y ∷ ys) (k ∷ stream) p q =
    ground
      (arith, bit_xor_common x y k, xor_relation-xor_bytes xs ys stream (omega arith) (omega arith))

-- What the checks on two sealed messages need: their texts are under one keystream, and both open.
test_reuse_detector_and_xor_ends :
    (a1 : Aead) (first second : SealedMessage) (opened opened' : Bytes)
    → let keys : KeyPair512 = record {
      encryption_key = key_with_offset 16;
      authentication_key = key_with_offset 80;
    } in
      let nonce = nonce_from_counter 7 in
      (seal a1 keys nonce (1 ∷ 2 ∷ 3 ∷ []) (ascending 96 0 0) bits256 ≡ ok first)
      → (seal a1 keys nonce (4 ∷ 5 ∷ 6 ∷ 7 ∷ []) (second_bytes 96 0) bits256 ≡ ok second)
      → length first.ciphertext ≡ length second.ciphertext
      → xor_relation first.ciphertext second.ciphertext (ascending 96 0 0) (second_bytes 96 0)
        ≡ ok tt
      → (open_sealed a1 keys nonce (1 ∷ 2 ∷ 3 ∷ []) first.ciphertext first.tag ≡ ok (some opened))
      → (open_sealed a1 keys nonce (4 ∷ 5 ∷ 6 ∷ 7 ∷ []) second.ciphertext second.tag
          ≡ ok (some opened'))
      → reuse_detector (key_with_offset 16) (key_with_offset 144) nonce ≡ ok tt
      → test_reuse_detector_and_xor a1 ≡ ok tt
unfolding test_reuse_detector_and_xor
test_reuse_detector_and_xor_ends a1 first second opened opened' s s' l x o o' d = ground arith

reuse_detector-passes :
    reuse_detector (key_with_offset 16) (key_with_offset 144) (nonce_from_counter 7) ≡ ok tt
unfolding reuse_detector observe contains same_pair observations key_with_offset ascending
    nonce_from_counter write_counter
reuse_detector-passes = refl

-- A message sealed with the longest tag opens.
opens_sealed :
    (a1 : Aead) (p : Primitives)
    → Documented a1 p
    → (keys : KeyPair512) (nonce ad plaintext : Bytes) → Fits ad
    → let m = a1_seal p keys nonce ad plaintext a1_bits256 in
      open_sealed a1 keys nonce ad m.ciphertext m.tag ≡ ok (some plaintext)
unfolding a1_seal
opens_sealed a1 p documented keys nonce ad plaintext fits =
    let m = a1_seal p keys nonce ad plaintext a1_bits256 in
    (open_sealed-iff-seal a1 p documented keys nonce ad m.ciphertext m.tag plaintext fits).1 (
      subst (λ n. seal a1 keys nonce ad plaintext n ≡ ok m)
        (sym (p.mac_length keys.authentication_key nonce ad m.ciphertext a1_bits256))
        (seal-eq a1 p documented keys nonce ad plaintext bits256 a1_bits256
          (to_a1_tag_size_named a1_bits256) fits))

-- Over a documented A1 the test passes: the detector reports a reuse under the same key only, both
-- messages of the reused nonce open, and every byte of their ciphertexts differs as the plaintexts do.
pub test_reuse_detector_and_xor_passes :
    (a1 : Aead) (p : Primitives) → Documented a1 p → test_reuse_detector_and_xor a1 ≡ ok tt
unfolding a1_seal
test_reuse_detector_and_xor_passes a1 p documented =
    let keys : KeyPair512 = record {
      encryption_key = key_with_offset 16;
      authentication_key = key_with_offset 80;
    } in
    let nonce = nonce_from_counter 7 in
    let xs = ascending 96 0 0 in
    let ys = second_bytes 96 0 in
    let ad = 1 ∷ 2 ∷ 3 ∷ [] in
    let ad' = 4 ∷ 5 ∷ 6 ∷ 7 ∷ [] in
    let first = a1_seal p keys nonce ad xs a1_bits256 in
    let second = a1_seal p keys nonce ad' ys a1_bits256 in
    let s =
      seal-eq a1 p documented keys nonce ad xs bits256 a1_bits256 (to_a1_tag_size_named a1_bits256)
        (omega arith) in
    let s' =
      seal-eq a1 p documented keys nonce ad' ys bits256 a1_bits256 (to_a1_tag_size_named a1_bits256)
        (omega arith) in
    let size : length xs ≡ 96 = unfold ascending in refl in
    let size' : length ys ≡ 96 = unfold second_bytes in refl in
    let k = p.stream keys.encryption_key nonce a1_bits256 96 in
    let width = p.stream_length keys.encryption_key nonce a1_bits256 96 in
    let relation : xor_relation first.ciphertext second.ciphertext xs ys ≡ ok tt =
      rw (size, size') (xor_relation-xor_bytes xs ys k (size ∙ sym width) (size' ∙ sym width)) in
    test_reuse_detector_and_xor_ends a1 first second xs ys s s'
      (length-xor_bytes xs _ ∙ size ∙ sym (length-xor_bytes ys _ ∙ size')) relation
      (opens_sealed a1 p documented keys nonce ad xs (omega arith))
      (opens_sealed a1 p documented keys nonce ad' ys (omega arith)) reuse_detector-passes

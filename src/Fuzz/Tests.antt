-- ===== src/Fuzz/Tests.antt =====
-- The theorems on the harnesses at a concrete input, with the toy A1 as both implementations.
use perfectvaluecubesymmetri.Base.{◌≡◌, ◌↔◌, ◌∷◌, refl, true, arith, Bytes, take, drop, replicate}
use perfectvaluecubesymmetri.Symmetric.{a1_bits192, a1_bits256}
use perfectvaluecubesymmetri.Symmetric.Toy.{toy_a1}
use perfectvaluecubesymmetri.Fuzz.{passed, seal_harness, open_harness}
use perfectvaluecubesymmetri.Fuzz.Differential.{
  hint_at, keys_at, nonce_at, payload_at, split_at, AgreeOnSeal, seal_harness_iff,
}
use perfectvaluecubesymmetri.Fuzz.Differential.Opens.{AgreeOnOpen, open_harness_iff}

abbrev input : Bytes
input = 1 ∷ 98 ∷ 0 ∷ 3 ∷ replicate 100 7

seal_harness_iff_example :
    let left = drop 1 input in
    let payload = payload_at left in
    let ad_size = split_at (hint_at left) payload in
    (seal_harness toy_a1 toy_a1 input ≡ passed)
    ↔ AgreeOnSeal toy_a1 toy_a1
        (keys_at left)
        (nonce_at left)
        (take ad_size payload)
        (drop ad_size payload)
        a1_bits192
seal_harness_iff_example = seal_harness_iff toy_a1 toy_a1 input a1_bits192 (omega arith) refl

open_harness_iff_example :
    (open_harness toy_a1 toy_a1 input ≡ passed)
    ↔ AgreeOnOpen toy_a1 toy_a1 true 98 (drop 2 input) a1_bits256
open_harness_iff_example = open_harness_iff toy_a1 toy_a1 input a1_bits256 (omega arith) refl

-- ===== src/Symmetric/Tests.antt =====
-- The theorems on the wrapper at concrete messages under the toy A1.
use perfectvaluecubesymmetri.Base.{
  ◌≢◌, ap, get_or, none, ◌≡◌, ◌↔◌, refl, Option, some, [], ◌∷◌, arith, Bytes, replicate, ok,
}
use perfectvaluecubesymmetri.Symmetric.{
  KeyPair512, SealedMessage, bits128, to_a1_keys, to_a1_nonce, to_a1_tag_size, seal, open_sealed,
}
use perfectvaluecubesymmetri.Symmetric.Profile.{xor_bytes, a1_seal}
use perfectvaluecubesymmetri.Symmetric.Messages.{
  open_sealed-iff-seal, open_sealed-total, seal_reused_nonce, open_sealed_other_tag,
}
use perfectvaluecubesymmetri.Symmetric.Toy.{toy, toy_a1, toy-Documented}

abbrev keys : KeyPair512
keys = record { encryption_key = replicate 32 1; authentication_key = replicate 32 2 }

abbrev nonce : Bytes
nonce = replicate 24 4

abbrev first : Bytes
first = 10 ∷ 20 ∷ 30 ∷ []

abbrev second : Bytes
second = 10 ∷ 21 ∷ 99 ∷ []

-- Both plaintexts under the keystream byte 5.
abbrev first_sealed : SealedMessage
first_sealed = record { ciphertext = 15 ∷ 17 ∷ 27 ∷ []; tag = replicate 16 30 }

abbrev second_sealed : SealedMessage
second_sealed = record { ciphertext = 15 ∷ 16 ∷ 102 ∷ []; tag = replicate 16 30 }

first_seals : seal toy_a1 keys nonce (9 ∷ []) first bits128 ≡ ok first_sealed
unfolding seal to_a1_keys to_a1_nonce to_a1_tag_size a1_seal xor_bytes
first_seals = refl

second_seals : seal toy_a1 keys nonce (9 ∷ []) second bits128 ≡ ok second_sealed
unfolding seal to_a1_keys to_a1_nonce to_a1_tag_size a1_seal xor_bytes
second_seals = refl

open_sealed-iff-seal_example :
    (open_sealed toy_a1 keys nonce (9 ∷ []) first_sealed.ciphertext first_sealed.tag
      ≡ ok (some first))
    ↔ (seal toy_a1 keys nonce (9 ∷ []) first 16 ≡ ok first_sealed)
open_sealed-iff-seal_example =
    open_sealed-iff-seal toy_a1 toy toy-Documented keys nonce (9 ∷ []) first_sealed.ciphertext
      first_sealed.tag first (omega arith)

open_sealed-total_example :
    (answer : Option Bytes) × (open_sealed toy_a1 keys nonce [] first (1 ∷ []) ≡ ok answer)
open_sealed-total_example =
    open_sealed-total toy_a1 toy toy-Documented keys nonce [] first (1 ∷ []) (omega arith)

seal_reused_nonce_example :
    xor_bytes first_sealed.ciphertext second_sealed.ciphertext ≡ xor_bytes first second
seal_reused_nonce_example =
    seal_reused_nonce toy_a1 toy toy-Documented keys keys nonce (9 ∷ []) (9 ∷ []) first second
      bits128 first_sealed second_sealed (omega arith) (omega arith) refl refl first_seals
      second_seals

abbrev forged_tag : Bytes
forged_tag = replicate 16 31

forged_tag_differs : forged_tag ≢ first_sealed.tag
forged_tag_differs e = absurd (omega (arith, ap (λ b. get_or b 0 0) e))

open_sealed_other_tag_example :
    open_sealed toy_a1 keys nonce (9 ∷ []) first_sealed.ciphertext forged_tag ≡ ok none
open_sealed_other_tag_example =
    open_sealed_other_tag toy_a1 toy toy-Documented keys nonce (9 ∷ []) first bits128 first_sealed
      forged_tag (omega arith) first_seals refl forged_tag_differs

-- ===== src/Nonce/Campaign/World/Values.antt =====
-- `nonce_from_counter` against the value of a nonce, its first byte the most significant.
use native.Mathlib.Nat.{div-div-eq-div-mul}
use perfectvaluecubesymmetri.Base.{
  ℕ, ◌*◌, ◌/◌, ◌^◌, ◌<◌, ◌≡◌, refl, ap, ap₂, ◌∙◌, sym, [], ◌∷◌, reverse, reverse-reverse, arith,
  Bytes, AllBytes, length, length-reverse, AllBytes-reverse,
}
use perfectvaluecubesymmetri.Nonce.Campaign.{nonce_from_counter, write_counter}
use perfectvaluecubesymmetri.Nonce.Counter.Value.{low_value, value}

low_value_eq :
    (xs ys : Bytes)
    → length xs ≡ length ys
    → AllBytes xs
    → AllBytes ys
    → low_value xs ≡ low_value ys
    → xs ≡ ys
low_value_eq [] [] l p q e = refl
low_value_eq [] (y ∷ ys) l p q e = absurd (omega arith)
low_value_eq (x ∷ xs) [] l p q e = absurd (omega arith)
low_value_eq (x ∷ xs) (y ∷ ys) l p q e =
    ap₂ ◌∷◌ (omega arith) (low_value_eq xs ys (omega arith) p.1 q.1 (omega arith))

value_eq : (a b : Bytes) → length a ≡ length b → AllBytes a → AllBytes b → value a ≡ value b → a ≡ b
value_eq a b l p q e =
    sym (reverse-reverse a)
    ∙ ap reverse (
        low_value_eq (reverse a) (reverse b) (length-reverse a ∙ l ∙ sym (length-reverse b))
          (AllBytes-reverse a p) (AllBytes-reverse b q) e)
    ∙ reverse-reverse b

next_byte : (v k : ℕ) → v / (k * 256) ≡ v / k / 256
next_byte v k = sym (div-div-eq-div-mul v k 256)

value-nonce_from_counter : (v : ℕ) → v < 2 ^ 64 → value (nonce_from_counter v) ≡ v
unfolding nonce_from_counter write_counter
value-nonce_from_counter v h = omega (
  arith,
  next_byte v (2 ^ 8),
  next_byte v (2 ^ 16),
  next_byte v (2 ^ 24),
  next_byte v (2 ^ 32),
  next_byte v (2 ^ 40),
  next_byte v (2 ^ 48),
)

-- `nonce_from_counter` is the nonce of that value, the only one of 24 bytes.
pub nonce_from_counter_unique :
    (nonce : Bytes) (v : ℕ)
    → length nonce ≡ 24
    → AllBytes nonce
    → v < 2 ^ 64
    → value nonce ≡ v
    → nonce ≡ nonce_from_counter v
nonce_from_counter_unique nonce v size bytes h e =
    value_eq nonce (nonce_from_counter v)
      (size ∙ sym (unfold nonce_from_counter write_counter in refl)) bytes
      (unfold nonce_from_counter write_counter in omega arith)
      (e ∙ sym (value-nonce_from_counter v h))

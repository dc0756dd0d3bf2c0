-- ===== src/Fault/Bits.antt =====
-- Single bit faults and bit distances of analysis/fault_injection_campaign.cpp.
use perfectvaluecubesymmetri.Base.{
  ◌≢◌, ℕ, zero, suc, ◌+◌, ◌*◌, ◌/◌, ◌%◌, ◌^◌, ◌<◌, ◌≤◌, ◌≡◌, ◌↔◌, refl, ap, ap₂, sym, ◌∙◌, Bool,
  true, bit_xor, [], ◌∷◌, arith, ltb, ◌==◌, Bytes, AllBytes, length, get_or, set, Result, ok, ◌>>◌,
  require, runtime_error, all_below, all_below-lt, length-set,
}
use native.Mathlib.Nat.{pow-suc}
use perfectvaluecubesymmetri.Base.Xor.{
  bit_xor_cancel, bit_xor_comm, bit_xor_assoc, bit_xor_self, bit_xor_eq, bit_xor-lt, zero-bit_xor,
}

-- `std::popcount` of an `unsigned`, by its lowest `width` bits.
unfoldable pub popcount : ℕ → ℕ → ℕ
popcount zero x = 0
popcount (suc width) x = x % 2 + popcount width (x / 2)

-- `value[bit / 8U] ^= 1U << (bit % 8U)`.
unfoldable pub flip_at : Bytes → ℕ → Bytes
flip_at value bit = set value (bit / 8) (bit_xor (get_or value (bit / 8) 0) (2 ^ (bit % 8)))

unfoldable pub flip_vector_bit : Bytes → ℕ → Result Bytes
unfolding flip_at
flip_vector_bit value bit = do
  require (ltb bit (length value * 8)) (runtime_error "vector fault bit is outside value")
  ok (flip_at value bit)

unfoldable pub flip_nonce_bit : Bytes → ℕ → Result Bytes
unfolding flip_at
flip_nonce_bit nonce bit = do
  require (ltb bit (length nonce * 8)) (runtime_error "nonce fault bit is outside value")
  ok (flip_at nonce bit)

-- The loop of `bit_distance`, over arrays of one length.
unfoldable pub sum_distance : Bytes → Bytes → ℕ
unfolding popcount
sum_distance (x ∷ left) (y ∷ right) = popcount 32 (bit_xor x y) + sum_distance left right
sum_distance _ _ = 0

unfoldable pub bit_distance : Bytes → Bytes → Result ℕ
unfolding sum_distance
bit_distance left right = do
  require (length left == length right) (runtime_error "bit distance length mismatch")
  ok (sum_distance left right)

popcount-le : (width x : ℕ) → popcount width x ≤ width
unfolding popcount
popcount-le zero x = omega arith
popcount-le (suc width) x = omega (arith, popcount-le width (x / 2))

pub sum_distance-le : (left right : Bytes) → sum_distance left right ≤ 32 * length left
unfolding sum_distance
sum_distance-le [] right = omega arith
sum_distance-le (x ∷ left) [] = omega arith
sum_distance-le (x ∷ left) (y ∷ right) =
    omega (arith, popcount-le 32 (bit_xor x y), sum_distance-le left right)

pub popcount_zero : (width : ℕ) → popcount width 0 ≡ 0
unfolding popcount
popcount_zero zero = refl
popcount_zero (suc width) = omega (arith, popcount_zero width)

pub zero_popcount : (width x : ℕ) → x < 2 ^ width → popcount width x ≡ 0 → x ≡ 0
unfolding popcount
zero_popcount zero x h e = omega arith
zero_popcount (suc width) x h e = omega (
  arith,
  pow-suc 2 width,
  zero_popcount width (x / 2) (omega (arith, pow-suc 2 width)) (omega arith),
)

one_bit : ℕ → Bool
unfolding popcount
one_bit k = popcount 32 (2 ^ k) == 1

one_bit_table : all_below 8 one_bit ≡ true
unfolding all_below one_bit
one_bit_table = refl

popcount_power : (k : ℕ) → k < 8 → popcount 32 (2 ^ k) ≡ 1
unfolding one_bit
popcount_power k h = ground (arith, all_below-lt 8 one_bit k one_bit_table h)

pub sum_distance_self : (xs : Bytes) → sum_distance xs xs ≡ 0
unfolding sum_distance
sum_distance_self [] = refl
sum_distance_self (x ∷ xs) =
    omega (arith, ap (popcount 32) (bit_xor_self x), popcount_zero 32, sum_distance_self xs)

sum_distance_comm : (xs ys : Bytes) → sum_distance xs ys ≡ sum_distance ys xs
unfolding sum_distance
sum_distance_comm [] [] = refl
sum_distance_comm [] (y ∷ ys) = refl
sum_distance_comm (x ∷ xs) [] = refl
sum_distance_comm (x ∷ xs) (y ∷ ys) =
    omega (arith, ap (popcount 32) (bit_xor_comm x y), sum_distance_comm xs ys)

pub zero_sum_distance :
    (xs ys : Bytes)
    → AllBytes xs
    → AllBytes ys
    → length xs ≡ length ys
    → sum_distance xs ys ≡ 0
    → xs ≡ ys
unfolding sum_distance
zero_sum_distance [] [] hx hy l e = refl
zero_sum_distance [] (y ∷ ys) hx hy l e = absurd (omega arith)
zero_sum_distance (x ∷ xs) [] hx hy l e = absurd (omega arith)
zero_sum_distance (x ∷ xs) (y ∷ ys) hx hy l e =
    let small : bit_xor x y < 2 ^ 8 = bit_xor-lt 8 x y hx.0 hy.0 in
    let none : bit_xor x y ≡ 0 =
      zero_popcount 32 (bit_xor x y) (omega (arith, small)) (omega arith) in
    ap₂ ◌∷◌ (bit_xor_eq x y none) (zero_sum_distance xs ys hx.1 hy.1 (omega arith) (omega arith))

-- The distance is symmetric and is zero exactly between equal arrays. The arrays have one length.
pub bit_distance_zero :
    (xs ys : Bytes)
    → AllBytes xs
    → AllBytes ys
    → length xs ≡ length ys
    → ((bit_distance xs ys ≡ ok 0) ↔ (xs ≡ ys)) × (bit_distance xs ys ≡ bit_distance ys xs)
unfolding bit_distance
bit_distance_zero xs ys hx hy l = (
  (
    λ e. zero_sum_distance xs ys hx hy l (ground arith),
    λ e. ground (arith, ap (λ zs. sum_distance xs zs) (sym e), sum_distance_self xs),
  ),
  ground (arith, sum_distance_comm xs ys),
)

pub sum_distance_flip :
    (xs : Bytes) (i k : ℕ)
    → i < length xs
    → k < 8
    → sum_distance xs (set xs i (bit_xor (get_or xs i 0) (2 ^ k))) ≡ 1
unfolding sum_distance
sum_distance_flip [] i k h b = absurd (omega arith)
sum_distance_flip (x ∷ xs) zero k h b = omega (
  arith,
  popcount_power k b,
  sum_distance_self xs,
  ap (popcount 32) (
      sym (bit_xor_assoc x x (2 ^ k))
      ∙ ap (λ a. bit_xor a (2 ^ k)) (bit_xor_self x)
      ∙ zero-bit_xor (2 ^ k)),
)
sum_distance_flip (x ∷ xs) (suc i) k h b = omega (
  arith,
  ap (popcount 32) (bit_xor_self x),
  popcount_zero 32,
  sum_distance_flip xs i k (omega arith) b,
)

pub set_back :
    (xs : Bytes) (i k : ℕ)
    → set
        (set xs i (bit_xor (get_or xs i 0) k))
        i
        (bit_xor (get_or (set xs i (bit_xor (get_or xs i 0) k)) i 0) k)
      ≡ xs
set_back [] i k = refl
set_back (x ∷ xs) zero k = ap (λ y. y ∷ xs) (bit_xor_cancel x k)
set_back (x ∷ xs) (suc i) k = ap (λ ys. x ∷ ys) (set_back xs i k)

-- A flipped bit inside the array changes it at distance one, and flipping it again restores it.
pub flip_vector_bit_once :
    (value : Bytes) (bit : ℕ)
    → bit < length value * 8
    → (faulted : Bytes) × (flip_vector_bit value bit ≡ ok faulted)
      × (bit_distance value faulted ≡ ok 1)
      × (flip_vector_bit faulted bit ≡ ok value)
unfolding flip_vector_bit flip_at bit_distance
flip_vector_bit_once value bit h =
    let i = bit / 8 in
    let k = bit % 8 in
    let faulted = flip_at value bit in
    (
      faulted,
      ground arith,
      ground (
        arith,
        length-set value i (bit_xor (get_or value i 0) (2 ^ k)),
        sum_distance_flip value i k (omega arith) (omega arith),
      ),
      ground (
        arith,
        length-set value i (bit_xor (get_or value i 0) (2 ^ k)),
        set_back value i (2 ^ k),
      ),
    )

-- A flipped array has the same length and is another one.
pub flip_vector_bit_differs :
    (value faulted : Bytes) (bit : ℕ)
    → bit < length value * 8
    → flip_vector_bit value bit ≡ ok faulted
    → (length faulted ≡ length value) × (faulted ≢ value)
unfolding flip_vector_bit flip_at
flip_vector_bit_differs value faulted bit h e =
    let i = bit / 8 in
    let k = bit % 8 in
    let flipped : flip_at value bit ≡ faulted = ground (arith, e) in
    (
      ap length (sym flipped) ∙ length-set value i (bit_xor (get_or value i 0) (2 ^ k)),
      λ same. ground (
        arith,
        sum_distance_flip value i k (omega arith) (omega arith),
        sum_distance_self value,
        ap (sum_distance value) (flipped ∙ same),
      ),
    )

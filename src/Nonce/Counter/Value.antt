-- ===== src/Nonce/Counter/Value.antt =====
-- `increment` as arithmetic on the value of the nonce, its first byte the most significant.
use native.Mathlib.Nat.{pow-suc}
use perfectvaluecubesymmetri.Base.{
  ℕ, ◌+◌, ◌*◌, ◌%◌, ◌^◌, ◌<◌, ◌≡◌, refl, ap, ◌∙◌, sym, Bool, true, false, [], ◌∷◌, reverse,
  reverse-reverse, arith, ltb, lt→ltb, le→ltb, ◌==◌, ==_iff, Bool-cases, inl, inr, if◌then◌else◌,
  Bytes, AllBytes, length, length-reverse, AllBytes-reverse,
}
use perfectvaluecubesymmetri.Nonce.Counter.{carry, increment}

-- The value of an array whose first byte is the least significant.
abbrev pub low_value : Bytes → ℕ
low_value [] = 0
low_value (x ∷ xs) = x + 256 * low_value xs

abbrev pub value : Bytes → ℕ
value nonce = low_value (reverse nonce)

low_value-lt : (xs : Bytes) → AllBytes xs → low_value xs < 256 ^ length xs
low_value-lt [] h = omega arith
low_value-lt (x ∷ xs) h = omega (arith, pow-suc 256 (length xs), low_value-lt xs h.1)

pub value-lt : (nonce : Bytes) → length nonce ≡ 24 → AllBytes nonce → value nonce < 2 ^ 192
value-lt nonce size bytes = omega (
  arith,
  low_value-lt (reverse nonce) (AllBytes-reverse nonce bytes),
  ap (λ (n : ℕ). 256 ^ n) (length-reverse nonce ∙ size),
)

-- One pass of the carry: the value grows by one, less the modulus if no byte takes the carry.
record IsCarried (xs ys : Bytes) (done : Bool) : Type 0 where
  sum : low_value ys + (if done then 0 else 256 ^ length xs) ≡ low_value xs + 1
  same_length : length ys ≡ length xs
  bytes : AllBytes ys

carried_sum :
    (x low above m : ℕ) (done : Bool) (m' : ℕ)
    → x ≡ 255
    → m' ≡ m * 256
    → above + (if done then 0 else m) ≡ low + 1
    → 0 + 256 * above + (if done then 0 else m') ≡ x + 256 * low + 1
carried_sum x low above m true m' e f h = omega arith
carried_sum x low above m false m' e f h = omega arith

carry-IsCarried : (xs : Bytes) → AllBytes xs → IsCarried xs (carry xs).0 (carry xs).1
unfolding carry
carry-IsCarried [] h = omega arith
carry-IsCarried (x ∷ xs) h =
    let below = carry-IsCarried xs h.1 in
    elim (Bool-cases (x == 255)) [
      | inl full ↦ rw full (record {
        sum =
            carried_sum x (low_value xs) (low_value (carry xs).0) (256 ^ length xs) (carry xs).1 _
              ((==_iff x 255).0 full) (pow-suc 256 (length xs)) below.sum;
        same_length = omega (arith, below.same_length);
        bytes = (omega arith, below.bytes);
      })
      | inr free ↦ rw free (record { sum = omega arith; same_length = refl; bytes = ground arith })
    ]

pub record IsIncremented (nonce : Bytes) (next : Bytes) (done : Bool) : Type 0 where
  pub wraps : value next ≡ (value nonce + 1) % 2 ^ 192
  pub reports : done ≡ ltb (value nonce + 1) (2 ^ 192)
  pub same_length : length next ≡ 24
  pub bytes : AllBytes next

wraps_at :
    (v w : ℕ) (done : Bool)
    → v < 2 ^ 192
    → w < 2 ^ 192
    → w + (if done then 0 else 2 ^ 192) ≡ v + 1
    → (w ≡ (v + 1) % 2 ^ 192) × (done ≡ ltb (v + 1) (2 ^ 192))
wraps_at v w true p q e = (omega arith, sym (lt→ltb (v + 1) (2 ^ 192) (omega arith)))
wraps_at v w false p q e = (omega arith, sym (le→ltb (v + 1) (2 ^ 192) (omega arith)))

-- On 24 bytes `increment` adds one modulo 2 ^ 192, and returns `false` exactly when it wraps.
pub increment-IsIncremented :
    (nonce : Bytes)
    → length nonce ≡ 24
    → AllBytes nonce
    → IsIncremented nonce (increment nonce).0 (increment nonce).1
unfolding increment
increment-IsIncremented nonce size bytes =
    let c = carry-IsCarried (reverse nonce) (AllBytes-reverse nonce bytes) in
    let next = reverse (carry (reverse nonce)).0 in
    let done = (carry (reverse nonce)).1 in
    let next_size : length next ≡ 24 =
      length-reverse (carry (reverse nonce)).0 ∙ c.same_length ∙ length-reverse nonce ∙ size in
    let next_bytes : AllBytes next = AllBytes-reverse (carry (reverse nonce)).0 c.bytes in
    let width : length (reverse nonce) ≡ 24 = length-reverse nonce ∙ size in
    let sum : value next + (if done then 0 else 2 ^ 192) ≡ value nonce + 1 =
      rw (reverse-reverse (carry (reverse nonce)).0) (rw width at c.sum) in
    let (wraps, reports) =
      wraps_at (value nonce) (value next) done (value-lt nonce size bytes)
        (value-lt next next_size next_bytes) sum in
    record { wraps = wraps; reports = reports; same_length = next_size; bytes = next_bytes }

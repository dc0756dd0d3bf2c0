-- ===== src/Fault/Localization/Changed.antt =====
-- What `changed_bit` finds.
use perfectvaluecubesymmetri.Base.{
  ℕ, zero, suc, ◌+◌, ◌*◌, ◌/◌, ◌%◌, ◌^◌, ◌≤◌, ◌<◌, ◌≡◌, ◌≢◌, ◌⊎◌, refl, sym, ap, ◌∙◌, Bool, true,
  false, not, ◌&&◌, ◌||◌, Bool-cases, inl, inr, [], ◌∷◌, arith, ltb, ◌==◌, ==_iff, if◌then◌else◌,
  bit_xor, Bytes, AllBytes, get_or, get_or_ext, get_or-set_self, get_or-set_ne, set, length,
  length-set, ok, all_below, all_below-lt,
}
use perfectvaluecubesymmetri.Base.Xor.{
  bit_xor_self, bit_xor_eq, bit_xor-lt, bit_xor_assoc, zero-bit_xor,
}
use perfectvaluecubesymmetri.Fault.Bits.{
  popcount, sum_distance, bit_distance, flip_at, flip_vector_bit, zero_popcount, zero_sum_distance,
}
use perfectvaluecubesymmetri.Fault.Localization.{differs_at, search_bit, changed_bit}

-- The place of the lowest bit of a byte, by trial.
abbrev lowest : ℕ → ℕ
lowest x =
    if x == 1
    then 0
    else if x == 2
    then 1
    else if x == 4
    then 2
    else if x == 8
    then 3
    else if x == 16
    then 4
    else if x == 32
    then 5
    else if x == 64
    then 6
    else 7

is_power : ℕ → Bool
unfolding popcount
is_power x = not (popcount 32 x == 1) || (x == 2 ^ lowest x && ltb (lowest x) 8)

power_table : all_below 256 is_power ≡ true
unfolding all_below is_power
power_table = refl

-- A byte with one bit set is a power of two.
power_of_popcount : (x : ℕ) → x < 256 → popcount 32 x ≡ 1 → (k : ℕ) × (k < 8) × (x ≡ 2 ^ k)
unfolding is_power
power_of_popcount x h e =
    let found : is_power x ≡ true = all_below-lt 256 is_power x power_table h in
    (lowest x, ground (arith, found, e), ground (arith, found, e))

split_one : (a b : ℕ) → a + b ≡ 1 → ((a ≡ 0) × (b ≡ 1)) ⊎ ((a ≡ 1) × (b ≡ 0))
split_one zero b e = inl (refl, omega arith)
split_one (suc zero) b e = inr (refl, omega arith)
split_one (suc (suc a)) b e = absurd (omega arith)

-- The bytes at `i` differ in bit `k`, and the others agree.
record IsOneBit (xs ys : Bytes) (i k : ℕ) : Type 0 where
  inside : i < length xs
  place : k < 8
  here : bit_xor (get_or xs i 0) (get_or ys i 0) ≡ 2 ^ k
  others : (j : ℕ) → j ≢ i → get_or xs j 0 ≡ get_or ys j 0

others_later :
    (x y : ℕ) (xs ys : Bytes) (i : ℕ)
    → x ≡ y
    → ((j : ℕ) → j ≢ i → get_or xs j 0 ≡ get_or ys j 0)
    → (j : ℕ) → j ≢ suc i
    → get_or (x ∷ xs) j 0 ≡ get_or (y ∷ ys) j 0
others_later x y xs ys i e all zero ne = e
others_later x y xs ys i e all (suc j) ne = all j (λ f. ne (ap suc f))

others_first :
    (x y : ℕ) (xs ys : Bytes)
    → xs ≡ ys
    → (j : ℕ) → j ≢ 0
    → get_or (x ∷ xs) j 0 ≡ get_or (y ∷ ys) j 0
others_first x y xs ys e zero ne = absurd (ne refl)
others_first x y xs ys e (suc j) ne = ap (λ zs. get_or zs j 0) e

small_xor : (x y : ℕ) → x < 256 → y < 256 → bit_xor x y < 256
small_xor x y h g = bit_xor-lt 8 x y h g

-- Arrays at distance one differ in one bit of one byte.
one_difference :
    (xs ys : Bytes)
    → AllBytes xs
    → AllBytes ys
    → length xs ≡ length ys
    → sum_distance xs ys ≡ 1
    → (i k : ℕ) × IsOneBit xs ys i k
unfolding sum_distance
one_difference [] ys hx hy l e = absurd (omega (arith, e))
one_difference (x ∷ xs) [] hx hy l e = absurd (omega arith)
one_difference (x ∷ xs) (y ∷ ys) hx hy l e =
    elim (split_one (popcount 32 (bit_xor x y)) (sum_distance xs ys) e) [
      | inl (none, later) ↦
          let (i, k, rest) = one_difference xs ys hx.1 hy.1 (omega arith) later in
          let small : bit_xor x y < 2 ^ 32 = omega (arith, small_xor x y hx.0 hy.0) in
          let same : x ≡ y = bit_xor_eq x y (zero_popcount 32 (bit_xor x y) small none) in
          (
            suc i,
            k,
            record {
              inside = omega (arith, rest.inside);
              place = rest.place;
              here = rest.here;
              others = others_later x y xs ys i same rest.others;
            },
          )
      | inr (one, nothing) ↦
          let (k, place, power) = power_of_popcount (bit_xor x y) (small_xor x y hx.0 hy.0) one in
          let rest = zero_sum_distance xs ys hx.1 hy.1 (omega arith) nothing in
          (
            0,
            k,
            record {
              inside = omega arith;
              place = place;
              here = power;
              others = others_first x y xs ys rest;
            },
          )
    ]

digit : ℕ → ℕ → Bool
digit k m = 2 ^ k / 2 ^ m % 2 == 1

digit_row : ℕ → Bool
unfolding digit
digit_row k =
    all_below 8 (λ m. if m == k then digit k m else not (digit k m))
    && all_below 8 (λ m. not (0 / 2 ^ m % 2 == 1))

digit_table : all_below 8 digit_row ≡ true
unfolding all_below digit_row digit
digit_table = refl

-- A power of two has one digit.
digit_power : (k m : ℕ) → k < 8 → m < 8 → (if m == k then digit k m else not (digit k m)) ≡ true
unfolding digit_row
digit_power k m h g =
    let row : digit_row k ≡ true = all_below-lt 8 digit_row k digit_table h in
    all_below-lt 8 (λ m. if m == k then digit k m else not (digit k m)) m (ground (arith, row)) g

no_digit : (m : ℕ) → m < 8 → (0 / 2 ^ m % 2 == 1) ≡ false
unfolding digit_row
no_digit m g =
    let row : digit_row 0 ≡ true = all_below-lt 8 digit_row 0 digit_table (omega arith) in
    let off : not (0 / 2 ^ m % 2 == 1) ≡ true =
      all_below-lt 8 (λ m. not (0 / 2 ^ m % 2 == 1)) m (ground (arith, row)) g in
    ground (arith, off)

differs_at_hit :
    (xs ys : Bytes) (i k bit : ℕ)
    → IsOneBit xs ys i k
    → bit / 8 ≡ i
    → bit % 8 ≡ k
    → differs_at xs ys bit ≡ true
unfolding differs_at digit
differs_at_hit xs ys i k bit one e f =
    rw (e, f, one.here) (ground (arith, digit_power k k one.place one.place))

differs_at_miss :
    (xs ys : Bytes) (i k bit : ℕ)
    → IsOneBit xs ys i k
    → bit < i * 8 + k
    → differs_at xs ys bit ≡ false
unfolding differs_at digit
differs_at_miss xs ys i k bit one h = elim (Bool-cases (bit / 8 == i)) [
  | inl here ↦
      let e : bit / 8 ≡ i = (==_iff (bit / 8) i).0 here in
      let apart : (bit % 8 == k) ≡ false = ground (arith, e) in
      rw (e, one.here) (ground (arith, apart, digit_power k (bit % 8) one.place (omega arith)))
  | inr there ↦
      let same = one.others (bit / 8) (λ e. absurd (ground (arith, there, e))) in
      rw (same, bit_xor_self (get_or ys (bit / 8) 0)) (no_digit (bit % 8) (omega arith))
]

search_bit-first :
    (xs ys : Bytes) (count bit found : ℕ)
    → differs_at xs ys found ≡ true
    → ((j : ℕ) → j < found → differs_at xs ys j ≡ false)
    → bit ≤ found
    → found < bit + count
    → search_bit xs ys count bit ≡ ok found
unfolding search_bit
search_bit-first xs ys zero bit found hit misses h g = absurd (omega arith)
search_bit-first xs ys (suc count) bit found hit misses h g = elim (Bool-cases (bit == found)) [
  | inl here ↦ let e : bit ≡ found = (==_iff bit found).0 here in rw (e, hit) refl
  | inr before ↦
      let miss = misses bit (ground (arith, before)) in
      rw miss (
        search_bit-first xs ys count (suc bit) found hit misses (ground (arith, before))
          (omega arith))
]

flip_at-one :
    (xs ys : Bytes) (i k bit : ℕ)
    → length xs ≡ length ys
    → IsOneBit xs ys i k
    → bit / 8 ≡ i
    → bit % 8 ≡ k
    → flip_at xs bit ≡ ys
unfolding flip_at
flip_at-one xs ys i k bit l one e f =
    rw (e, f)
      (get_or_ext 0 (set xs i (bit_xor (get_or xs i 0) (2 ^ k))) ys
        (length-set xs i (bit_xor (get_or xs i 0) (2 ^ k)) ∙ l)
        (λ j h. elim (Bool-cases (j == i)) [
          | inl here ↦
              let at : j ≡ i = (==_iff j i).0 here in
              rw at (
                get_or-set_self xs i (bit_xor (get_or xs i 0) (2 ^ k)) 0 one.inside
                ∙ ap (bit_xor (get_or xs i 0)) (sym one.here)
                ∙ sym (bit_xor_assoc (get_or xs i 0) (get_or xs i 0) (get_or ys i 0))
                ∙ ap (λ a. bit_xor a (get_or ys i 0)) (bit_xor_self (get_or xs i 0))
                ∙ zero-bit_xor (get_or ys i 0))
          | inr there ↦
              let apart : i ≢ j = λ g. absurd (ground (arith, there, g)) in
              get_or-set_ne xs i j (bit_xor (get_or xs i 0) (2 ^ k)) 0 apart
              ∙ one.others j (λ g. apart (sym g))
        ]))

-- Between two arrays at distance one `changed_bit` finds the bit whose flip makes the one of the other;
-- its last statement is never reached.
pub changed_bit-flip :
    (left right : Bytes)
    → AllBytes left
    → AllBytes right
    → bit_distance left right ≡ ok 1
    → (bit : ℕ) × (changed_bit left right ≡ ok bit) × (flip_vector_bit left bit ≡ ok right)
unfolding changed_bit bit_distance flip_vector_bit
changed_bit-flip left right hl hr e =
    let l : length left ≡ length right = ground (arith, e) in
    let distance : sum_distance left right ≡ 1 = ground (arith, e) in
    let (i, k, one) = one_difference left right hl hr l distance in
    let bit = i * 8 + k in
    let at : (i * 8 + k) / 8 ≡ i = omega (arith, one.place) in
    let digit : (i * 8 + k) % 8 ≡ k = omega (arith, one.place) in
    let found =
      search_bit-first left right (length left * 8) 0 bit
        (differs_at_hit left right i k bit one at digit)
        (λ j h. differs_at_miss left right i k j one h) (omega arith)
        (omega (arith, one.inside, one.place)) in
    let flipped = flip_at-one left right i k bit l one at digit in
    (bit, ground (arith, e, found), rw flipped (ground (arith, one.inside, one.place)))

-- ===== src/Fault/Random.antt =====
-- `next_random`, `random_array` and `random_vector` of analysis/fault_injection_campaign.cpp.
use perfectvaluecubesymmetri.Base.{
  ℕ, zero, suc, ◌+◌, ◌*◌, ◌/◌, ◌%◌, ◌^◌, ◌≤◌, ◌≡◌, refl, ap, bit_xor, [], ◌∷◌, arith, ◌==◌,
  if◌then◌else◌, Bytes, AllBytes, length, take,
}

-- Words of 64 bits; a shift to the right by `k` divides by `2 ^ k`. The value, and the new state.
unfoldable pub next_random : ℕ → ℕ × ℕ
next_random old =
    let state = (old + 11400714819323198485) % 2 ^ 64 in
    let first = bit_xor state (state / 2 ^ 30) * 13787848793156543929 % 2 ^ 64 in
    let second = bit_xor first (first / 2 ^ 27) * 10723151780598845931 % 2 ^ 64 in
    (bit_xor second (second / 2 ^ 31), state)

-- The loop from `index` on, over the last `count` bytes: every eighth byte takes a new word.
unfoldable pub random_bytes : ℕ → ℕ → ℕ → ℕ → Bytes × ℕ
unfolding next_random
random_bytes zero index word state = ([], state)
random_bytes (suc count) index word state =
    let (word, state) = if index % 8 == 0 then next_random state else (word, state) in
    let (output, state) = random_bytes count (index + 1) (word / 256) state in
    (word % 256 ∷ output, state)

-- `random_array` for a size known to the compiler, `random_vector` for any other.
unfoldable pub random_vector : ℕ → ℕ → Bytes × ℕ
unfolding random_bytes
random_vector state size = random_bytes size 0 0 state

random_bytes-length :
    (count index word state : ℕ)
    → (length (random_bytes count index word state).0 ≡ count)
      × AllBytes (random_bytes count index word state).0
unfolding random_bytes
random_bytes-length zero index word state = (refl, tt)
random_bytes-length (suc count) index word state =
    let (l, b) = random_bytes-length count (index + 1) _ _ in (ap suc l, (omega arith, b))

random_bytes_prefix :
    (n m index word state : ℕ)
    → n ≤ m
    → take n (random_bytes m index word state).0 ≡ (random_bytes n index word state).0
unfolding random_bytes
random_bytes_prefix zero m index word state h = refl
random_bytes_prefix (suc n) zero index word state h = absurd (omega arith)
random_bytes_prefix (suc n) (suc m) index word state h =
    let step = if index % 8 == 0 then next_random state else (word, state) in
    ap (λ t. step.0 % 256 ∷ t)
      (random_bytes_prefix n m (index + 1) (step.0 / 256) step.1 (omega arith))

-- The size asked for, all of it bytes; and a longer vector from one state begins with the shorter one.
pub random_vector-length :
    (state size shorter : ℕ)
    → shorter ≤ size
    → (length (random_vector state size).0 ≡ size)
      × AllBytes (random_vector state size).0
      × (take shorter (random_vector state size).0 ≡ (random_vector state shorter).0)
unfolding random_vector
random_vector-length state size shorter h =
    let (l, b) = random_bytes-length size 0 0 state in
    (l, b, random_bytes_prefix shorter size 0 0 state h)

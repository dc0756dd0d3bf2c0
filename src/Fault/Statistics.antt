-- ===== src/Fault/Statistics.antt =====
-- The counts of analysis/fault_injection_campaign.cpp: the statistics of bit distances.
pub mod Measured
use perfectvaluecubesymmetri.Base.{
  ℕ, suc, ◌+◌, ◌-◌, ◌%◌, ◌^◌, ◌≤◌, ◌<◌, ◌≡◌, refl, List, [], ◌∷◌, arith, ◌==◌, if◌then◌else◌, min,
  max, length,
}

pub record DistanceStats : Type 0 where
  pub attempts : ℕ
  pub unchanged : ℕ
  pub one_bit : ℕ
  pub distance_sum : ℕ
  pub minimum : ℕ
  pub maximum : ℕ

-- The largest `std::size_t`.
abbrev pub no_index : ℕ
no_index = 2 ^ 64 - 1

abbrev pub no_distances : DistanceStats
no_distances = record {
  attempts = 0;
  unchanged = 0;
  one_bit = 0;
  distance_sum = 0;
  minimum = no_index;
  maximum = 0;
}

-- Counters of 64 bits, which wrap around.
abbrev pub increase : ℕ → ℕ → ℕ
increase counter amount = (counter + amount) % 2 ^ 64

unfoldable pub observe : DistanceStats → ℕ → DistanceStats
observe stats distance = record {
  attempts = increase stats.attempts 1;
  unchanged = if distance == 0 then increase stats.unchanged 1 else stats.unchanged;
  one_bit = if distance == 1 then increase stats.one_bit 1 else stats.one_bit;
  distance_sum = increase stats.distance_sum distance;
  minimum = min stats.minimum distance;
  maximum = max stats.maximum distance;
}

-- The statistics of a list of distances, the latest first.
pub observe_all : List ℕ → DistanceStats
unfolding observe
observe_all [] = no_distances
observe_all (distance ∷ earlier) = observe (observe_all earlier) distance

abbrev pub count : ℕ → List ℕ → ℕ
count d [] = 0
count d (x ∷ xs) = if x == d then suc (count d xs) else count d xs

abbrev pub sum : List ℕ → ℕ
sum [] = 0
sum (x ∷ xs) = x + sum xs

abbrev pub AllBetween : ℕ → ℕ → List ℕ → Type 0
AllBetween low high [] = Unit
AllBetween low high (x ∷ xs) = (low ≤ x) × (x ≤ high) × AllBetween low high xs

pub record IsSummary (stats : DistanceStats) (distances : List ℕ) : Type 0 where
  pub attempts : stats.attempts ≡ length distances
  pub unchanged : stats.unchanged ≡ count 0 distances
  pub one_bit : stats.one_bit ≡ count 1 distances
  pub distance_sum : stats.distance_sum ≡ sum distances
  pub range : AllBetween stats.minimum stats.maximum distances

AllBetween-wider :
    (low high low' high' : ℕ) (xs : List ℕ)
    → low' ≤ low
    → high ≤ high'
    → AllBetween low high xs
    → AllBetween low' high' xs
AllBetween-wider low high low' high' [] p q h = tt
AllBetween-wider low high low' high' (x ∷ xs) p q (a, b, c) =
    (omega arith, omega arith, AllBetween-wider low high low' high' xs p q c)

count-le : (d : ℕ) (xs : List ℕ) → count d xs ≤ length xs
count-le d [] = omega arith
count-le d (x ∷ xs) = ground (arith, count-le d xs)

-- One more distance. Its number and the sum fit 64 bits.
pub observe-IsSummary :
    (old : DistanceStats) (x : ℕ) (xs : List ℕ)
    → IsSummary old xs
    → suc (length xs) < 2 ^ 64
    → x + sum xs < 2 ^ 64
    → IsSummary (observe old x) (x ∷ xs)
unfolding observe
observe-IsSummary old x xs s h k = record {
  attempts = omega (arith, s.attempts);
  unchanged = ground (arith, s.unchanged, count-le 0 xs);
  one_bit = ground (arith, s.one_bit, count-le 1 xs);
  distance_sum = omega (arith, s.distance_sum);
  range = (
    omega arith,
    omega arith,
    AllBetween-wider old.minimum old.maximum (min old.minimum x) (max old.maximum x) xs
        (omega arith) (omega arith) s.range,
  );
}

-- The statistics count the observations and those at distance zero and one, add up the distances, and bound
-- them. The number and the sum of the distances fit 64 bits.
pub observe_all-IsSummary :
    (distances : List ℕ)
    → length distances < 2 ^ 64
    → sum distances < 2 ^ 64
    → IsSummary (observe_all distances) distances
unfolding observe_all observe
observe_all-IsSummary [] h k = record {
  attempts = refl;
  unchanged = refl;
  one_bit = refl;
  distance_sum = refl;
  range = tt;
}
observe_all-IsSummary (x ∷ xs) h k =
    observe-IsSummary (observe_all xs) x xs (observe_all-IsSummary xs (omega arith) (omega arith)) h
      k

-- ===== src/Fault/Statistics/Measured.antt =====
-- Statistics of the faults with the numbers 0, 1, 2, ..., next to the distance that each of them has.
use perfectvaluecubesymmetri.Base.{
  ℕ, zero, suc, ◌*◌, ◌≤◌, ◌<◌, ◌≡◌, refl, ap, List, [], ◌∷◌, ◌++◌, arith, length, ◌==◌,
  if◌then◌else◌,
}
use perfectvaluecubesymmetri.Fault.Statistics.{
  DistanceStats, no_distances, observe, sum, IsSummary, observe-IsSummary,
}

-- The distances of the first `n` faults, the latest first, where `HasDistance i d` says that fault `i`
-- has the distance `d`.
abbrev pub AllMeasured : (ℕ → ℕ → Type 0) → ℕ → List ℕ → Type 0
AllMeasured HasDistance zero [] = Unit
AllMeasured HasDistance (suc n) (d ∷ seen) = HasDistance n d × AllMeasured HasDistance n seen
AllMeasured HasDistance _ _ = ⊥

-- The faults at distance one, in ascending order.
abbrev pub at_one : List ℕ → List ℕ
at_one [] = []
at_one (d ∷ seen) = if d == 1 then at_one seen ++ (length seen ∷ []) else at_one seen

-- Each of the first `n` faults is measured once, and the statistics are those of the distances.
pub record IsMeasured (HasDistance : ℕ → ℕ → Type 0) (n : ℕ) (stats : DistanceStats) (seen : List ℕ)
    : Type 0 where
  pub each : AllMeasured HasDistance n seen
  pub size : length seen ≡ n
  pub small : sum seen ≤ n * 4096
  pub summary : IsSummary stats seen

pub none-IsMeasured : (HasDistance : ℕ → ℕ → Type 0) → IsMeasured HasDistance 0 no_distances []
none-IsMeasured HasDistance = record {
  each = tt;
  size = refl;
  small = omega arith;
  summary = record {
    attempts = refl;
    unchanged = refl;
    one_bit = refl;
    distance_sum = refl;
    range = tt;
  };
}

pub observe-IsMeasured :
    (HasDistance : ℕ → ℕ → Type 0) (n : ℕ) (stats : DistanceStats) (seen : List ℕ) (d : ℕ)
    → IsMeasured HasDistance n stats seen
    → HasDistance n d
    → d ≤ 4096
    → n < 1000000
    → IsMeasured HasDistance (suc n) (observe stats d) (d ∷ seen)
observe-IsMeasured HasDistance n stats seen d old has h room = record {
  each = (has, old.each);
  size = ap suc old.size;
  small = omega (arith, old.small);
  summary =
      observe-IsSummary stats d seen old.summary (omega (arith, old.size))
        (omega (arith, old.small));
}

-- ===== src/Fault/Regions.antt =====
-- Regions and geometry of the faulted state, and the aggregate of the diagnosis, of
-- analysis/fault_injection_campaign.cpp.
use perfectvaluecubesymmetri.Base.{
  ℕ, zero, suc, ◌+◌, ◌-◌, ◌*◌, ◌/◌, ◌%◌, ◌^◌, ◌≤◌, ◌<◌, ◌≡◌, refl, Bool-cases, inl, inr, List, [],
  ◌∷◌, arith, ltb, if◌then◌else◌, length, get_or, set, replicate, length-set, Result, ok, ◌>>◌,
  require, runtime_error,
}
use perfectvaluecubesymmetri.Fault.Statistics.{increase, sum}

pub data StateRegion : Type 0 where
  cube axis_control amount_control feedback transcript region_count : StateRegion

abbrev pub cube_state_bits : ℕ
cube_state_bits = 512 * 8

abbrev pub controller_state_bits : ℕ
controller_state_bits = 16 + 16 + 32 + 64

abbrev pub c1_state_bits : ℕ
c1_state_bits = cube_state_bits + controller_state_bits

unfoldable pub state_region : ℕ → Result StateRegion
state_region bit = do
  require (ltb bit c1_state_bits) (runtime_error "state-region bit is outside model")
  let axis_bit = bit - cube_state_bits
  let amount_bit = axis_bit - 16
  let feedback_bit = amount_bit - 16
  (if ltb bit cube_state_bits
      then ok cube
      else if ltb axis_bit 16
      then ok axis_control
      else if ltb amount_bit 16
      then ok amount_control
      else if ltb feedback_bit 32
      then ok feedback
      else ok transcript)

pub record GeometryCounts : Type 0 where
  pub x : List ℕ
  pub y : List ℕ
  pub z : List ℕ
  pub cell_bit : List ℕ
  pub non_cube : ℕ

abbrev pub no_geometry : GeometryCounts
no_geometry = record {
  x = replicate 8 0;
  y = replicate 8 0;
  z = replicate 8 0;
  cell_bit = replicate 8 0;
  non_cube = 0;
}

-- `++counts[index]`.
abbrev pub increment_at : List ℕ → ℕ → List ℕ
increment_at counts index = set counts index (increase (get_or counts index 0) 1)

pub observe_geometry : GeometryCounts → ℕ → GeometryCounts
observe_geometry geometry state_bit =
    let cell = state_bit / 8 in
    if ltb state_bit cube_state_bits
    then record geometry {
      x = increment_at geometry.x (cell % 8);
      y = increment_at geometry.y (cell / 8 % 8);
      z = increment_at geometry.z (cell / 64 % 8);
      cell_bit = increment_at geometry.cell_bit (state_bit % 8);
    }
    else record geometry { non_cube = increase geometry.non_cube 1 }

-- The counts after a list of faults, the latest first.
pub geometry_of : List ℕ → GeometryCounts
unfolding observe_geometry
geometry_of [] = no_geometry
geometry_of (bit ∷ earlier) = observe_geometry (geometry_of earlier) bit

abbrev pub cube_faults : List ℕ → ℕ
cube_faults [] = 0
cube_faults (bit ∷ bits) =
    if ltb bit cube_state_bits then suc (cube_faults bits) else cube_faults bits

pub sum-set :
    (xs : List ℕ) (i v : ℕ) → i < length xs → sum (set xs i v) + get_or xs i 0 ≡ sum xs + v
sum-set [] i v h = absurd (omega arith)
sum-set (x ∷ xs) zero v h = omega arith
sum-set (x ∷ xs) (suc i) v h = omega (arith, sum-set xs i v (omega arith))

pub get_or-le-sum : (xs : List ℕ) (i : ℕ) → get_or xs i 0 ≤ sum xs
get_or-le-sum [] i = omega arith
get_or-le-sum (x ∷ xs) zero = omega arith
get_or-le-sum (x ∷ xs) (suc i) = omega (arith, get_or-le-sum xs i)

-- One of eight counters.
pub record IsTally (counts : List ℕ) (total : ℕ) : Type 0 where
  pub size : length counts ≡ 8
  pub counted : sum counts ≡ total

increment_at-IsTally :
    (counts : List ℕ) (total i : ℕ)
    → IsTally counts total
    → suc total < 2 ^ 64
    → IsTally (increment_at counts (i % 8)) (suc total)
increment_at-IsTally counts total i t h =
    let old = get_or counts (i % 8) 0 in
    let small : old ≤ total = omega (arith, get_or-le-sum counts (i % 8), t.counted) in
    let new : increase old 1 ≡ old + 1 = omega (arith, small) in
    record {
      size = omega (arith, length-set counts (i % 8) (increase old 1), t.size);
      counted =
          omega (
            arith,
            sum-set counts (i % 8) (increase old 1) (omega (arith, t.size)),
            new,
            t.counted,
          );
    }

-- The counts of `all` faults, `inside` of them in the cube.
pub record IsGeometry (geometry : GeometryCounts) (inside all : ℕ) : Type 0 where
  pub x : IsTally geometry.x inside
  pub y : IsTally geometry.y inside
  pub z : IsTally geometry.z inside
  pub cell_bit : IsTally geometry.cell_bit inside
  pub outside : geometry.non_cube + inside ≡ all

blank : IsTally (replicate 8 0) 0
blank = record { size = refl; counted = refl }

observe_geometry-IsGeometry :
    (old : GeometryCounts) (inside all bit : ℕ)
    → IsGeometry old inside all
    → suc all < 2 ^ 64
    → IsGeometry
        (observe_geometry old bit)
        (if ltb bit cube_state_bits then suc inside else inside)
        (suc all)
unfolding observe_geometry
observe_geometry-IsGeometry old inside all bit g h =
    let fits : suc inside < 2 ^ 64 = omega (arith, g.outside) in
    elim (Bool-cases (ltb bit cube_state_bits)) [
      | inl cell ↦ rw cell (record {
        x = increment_at-IsTally old.x inside (bit / 8) g.x fits;
        y = increment_at-IsTally old.y inside (bit / 8 / 8) g.y fits;
        z = increment_at-IsTally old.z inside (bit / 8 / 64) g.z fits;
        cell_bit = increment_at-IsTally old.cell_bit inside bit g.cell_bit fits;
        outside = omega (arith, g.outside);
      })
      | inr controller ↦ rw controller (record {
        x = g.x;
        y = g.y;
        z = g.z;
        cell_bit = g.cell_bit;
        outside = omega (arith, g.outside);
      })
    ]

-- Every fault is counted once: in one counter of each of the four axes if it is in the cube, else outside it.
-- The number of faults fits 64 bits.
pub geometry_of-IsGeometry :
    (bits : List ℕ)
    → length bits < 2 ^ 64
    → IsGeometry (geometry_of bits) (cube_faults bits) (length bits)
unfolding geometry_of
geometry_of-IsGeometry [] h = record {
  x = blank;
  y = blank;
  z = blank;
  cell_bit = blank;
  outside = refl;
}
geometry_of-IsGeometry (bit ∷ bits) h =
    observe_geometry-IsGeometry (geometry_of bits) (cube_faults bits) (length bits) bit
      (geometry_of-IsGeometry bits (omega arith)) h

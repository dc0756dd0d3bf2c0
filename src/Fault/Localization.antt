-- ===== src/Fault/Localization.antt =====
-- `changed_bit` and `localize_state_fault` of analysis/fault_injection_campaign.cpp.
pub mod Changed
pub mod Localized
use perfectvaluecubesymmetri.Base.{
  ℕ, zero, suc, ◌+◌, ◌*◌, ◌/◌, ◌%◌, ◌^◌, Bool, List, [], ◌∷◌, ◌++◌, bit_xor, ◌==◌, if◌then◌else◌,
  Bytes, get_or, set, replicate, length, Result, ok, err, ◌>>=◌, ◌>>◌, require, runtime_error,
}
use perfectvaluecubesymmetri.Fault.Bits.{bit_distance}
use perfectvaluecubesymmetri.Fault.Regions.{
  StateRegion, cube, axis_control, amount_control, feedback, transcript, region_count, state_region,
  increment_at,
}

-- `((left[bit / 8U] ^ right[bit / 8U]) & mask) != 0U` with the mask of one bit.
unfoldable pub differs_at : Bytes → Bytes → ℕ → Bool
differs_at left right bit =
    bit_xor (get_or left (bit / 8) 0) (get_or right (bit / 8) 0) / 2 ^ (bit % 8) % 2 == 1

-- The loop over the last `count` bits, from `bit` on, and the failure behind it.
pub search_bit : Bytes → Bytes → ℕ → ℕ → Result ℕ
unfolding differs_at
search_bit left right zero bit =
    err (runtime_error "distance-one output did not expose a changed bit")
search_bit left right (suc count) bit =
    let rest = search_bit left right count (suc bit) in
    if differs_at left right bit then ok bit else rest

pub changed_bit : Bytes → Bytes → Result ℕ
unfolding search_bit
changed_bit left right = do
  distance ← bit_distance left right
  require (distance == 1) (runtime_error "changed-bit localization requires distance one")
  search_bit left right (length left * 8) 0

-- The underlying value of a region.
abbrev pub region_number : StateRegion → ℕ
region_number cube = 0
region_number axis_control = 1
region_number amount_control = 2
region_number feedback = 3
region_number transcript = 4
region_number region_count = 5

pub record StateLocalization : Type 0 where
  pub unchanged_by_region : List ℕ
  pub one_bit_candidates : List (ℕ × ℕ)

abbrev pub no_localization : StateLocalization
no_localization = record { unchanged_by_region = replicate 5 0; one_bit_candidates = [] }

-- The first `if`.
pub localize_unchanged : StateLocalization → ℕ → ℕ → Result StateLocalization
localize_unchanged localization state_bit distance =
    if distance == 0
    then (state_region state_bit >>= λ region. ok (record localization {
      unchanged_by_region = increment_at localization.unchanged_by_region (region_number region);
    }))
    else ok localization

-- The second `if`.
pub localize_one_bit : StateLocalization → ℕ → ℕ → Bytes → Bytes → Result StateLocalization
localize_one_bit localization state_bit distance canonical faulted =
    if distance == 1
    then (changed_bit canonical faulted >>= λ bit. ok (record localization {
      one_bit_candidates = localization.one_bit_candidates ++ ((state_bit, bit) ∷ []);
    }))
    else ok localization

pub localize_state_fault : StateLocalization → ℕ → ℕ → Bytes → Bytes → Result StateLocalization
unfolding localize_unchanged localize_one_bit
localize_state_fault localization state_bit distance canonical faulted = do
  next ← localize_unchanged localization state_bit distance
  localize_one_bit next state_bit distance canonical faulted

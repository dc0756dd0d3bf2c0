-- ===== src/Fault/Diagnosis.antt =====
-- `observe_diagnostic` of analysis/fault_injection_campaign.cpp: one record of the diagnosis, and the aggregate.
use perfectvaluecubesymmetri.Base.{
  ℕ, suc, ◌+◌, ◌^◌, ◌≤◌, ◌<◌, ◌≡◌, refl, Bool, List, [], ◌∷◌, arith, leb, not, ◌&&◌, ◌==◌,
  if◌then◌else◌, length,
}
use perfectvaluecubesymmetri.Fault.Statistics.{
  DistanceStats, no_index, no_distances, increase, observe,
}
use perfectvaluecubesymmetri.Fault.Regions.{GeometryCounts, no_geometry, observe_geometry}

pub record DiagnosticRecord : Type 0 where
  pub profile_bits : ℕ
  pub case_index : ℕ
  pub state_bit : ℕ
  pub prefix_distance : ℕ
  pub full_distance : ℕ
  pub extended_distance : ℕ
  pub first_changed_byte : ℕ
  pub changed_prefix_bit : ℕ
  pub first_controller_stage : ℕ
  pub first_non_single_stage : ℕ
  pub single_bit_until_first_output : Bool

pub record DiagnosticAggregate : Type 0 where
  pub count : ℕ
  pub entry_checks : ℕ
  pub mirror_checks : ℕ
  pub full_unchanged : ℕ
  pub full_one_bit : ℕ
  pub extended_unchanged : ℕ
  pub extended_one_bit : ℕ
  pub first_change_after_prefix : ℕ
  pub no_change_in_extended : ℕ
  pub single_bit_until_first_output : ℕ
  pub controller_diverged_during_finalization_entry : ℕ
  pub controller_diverged_during_binding : ℕ
  pub controller_diverged_during_squeeze_entry : ℕ
  pub controller_diverged_during_squeeze : ℕ
  pub controller_never_diverged : ℕ
  pub full_distance : DistanceStats
  pub extended_distance : DistanceStats
  pub geometry : GeometryCounts

abbrev pub no_diagnostics : DiagnosticAggregate
no_diagnostics = record {
  count = 0;
  entry_checks = 0;
  mirror_checks = 0;
  full_unchanged = 0;
  full_one_bit = 0;
  extended_unchanged = 0;
  extended_one_bit = 0;
  first_change_after_prefix = 0;
  no_change_in_extended = 0;
  single_bit_until_first_output = 0;
  controller_diverged_during_finalization_entry = 0;
  controller_diverged_during_binding = 0;
  controller_diverged_during_squeeze_entry = 0;
  controller_diverged_during_squeeze = 0;
  controller_never_diverged = 0;
  full_distance = no_distances;
  extended_distance = no_distances;
  geometry = no_geometry;
}

-- `if (condition) ++counter;`
abbrev pub increase_if : Bool → ℕ → ℕ
increase_if condition counter = if condition then increase counter 1 else counter

-- The labels of the `switch` on `first_controller_stage`.
abbrev pub is_binding : ℕ → Bool
is_binding stage = leb 2 stage && leb stage 17

abbrev pub is_default : ℕ → Bool
is_default stage = not (stage == 1) && not (is_binding stage) && not (stage == 18)

pub observe_diagnostic : DiagnosticAggregate → DiagnosticRecord → ℕ → DiagnosticAggregate
observe_diagnostic a r tag_bytes =
    let stage = r.first_controller_stage in
    record {
      count = increase a.count 1;
      entry_checks = increase a.entry_checks 1;
      mirror_checks = increase a.mirror_checks 1;
      full_unchanged = increase_if (r.full_distance == 0) a.full_unchanged;
      full_one_bit = increase_if (r.full_distance == 1) a.full_one_bit;
      extended_unchanged = increase_if (r.extended_distance == 0) a.extended_unchanged;
      extended_one_bit = increase_if (r.extended_distance == 1) a.extended_one_bit;
      first_change_after_prefix =
          increase_if (not (r.first_changed_byte == no_index) && leb tag_bytes r.first_changed_byte)
            a.first_change_after_prefix;
      no_change_in_extended =
          increase_if (r.first_changed_byte == no_index) a.no_change_in_extended;
      single_bit_until_first_output =
          increase_if r.single_bit_until_first_output a.single_bit_until_first_output;
      controller_diverged_during_finalization_entry =
          increase_if (stage == 1) a.controller_diverged_during_finalization_entry;
      controller_diverged_during_binding =
          increase_if (is_binding stage) a.controller_diverged_during_binding;
      controller_diverged_during_squeeze_entry =
          increase_if (stage == 18) a.controller_diverged_during_squeeze_entry;
      controller_diverged_during_squeeze =
          increase_if (is_default stage && not (stage == no_index))
            a.controller_diverged_during_squeeze;
      controller_never_diverged =
          increase_if (is_default stage && stage == no_index) a.controller_never_diverged;
      full_distance = observe a.full_distance r.full_distance;
      extended_distance = observe a.extended_distance r.extended_distance;
      geometry = observe_geometry a.geometry r.state_bit;
    }

-- The aggregate of a list of records, the latest first.
unfoldable pub diagnose : ℕ → List DiagnosticRecord → DiagnosticAggregate
unfolding observe_diagnostic
diagnose tag_bytes [] = no_diagnostics
diagnose tag_bytes (r ∷ earlier) = observe_diagnostic (diagnose tag_bytes earlier) r tag_bytes

-- The five ways in which the controller diverges, or does not, add up to the number of records, and so do
-- the checks.
pub record IsPartitioned (a : DiagnosticAggregate) (total : ℕ) : Type 0 where
  pub counted : a.count ≡ total
  pub checked : (a.entry_checks ≡ total) × (a.mirror_checks ≡ total)
  pub divergence :
      a.controller_diverged_during_finalization_entry + a.controller_diverged_during_binding
        + a.controller_diverged_during_squeeze_entry + a.controller_diverged_during_squeeze
        + a.controller_never_diverged
      ≡ total
  pub exclusive : a.first_change_after_prefix + a.no_change_in_extended ≤ total

observe_diagnostic-IsPartitioned :
    (a : DiagnosticAggregate) (r : DiagnosticRecord) (tag_bytes total : ℕ)
    → IsPartitioned a total
    → suc total < 2 ^ 64
    → IsPartitioned (observe_diagnostic a r tag_bytes) (suc total)
unfolding observe_diagnostic
observe_diagnostic-IsPartitioned a r tag_bytes total p h = record {
  counted = omega (arith, p.counted);
  checked = (omega (arith, p.checked.0), omega (arith, p.checked.1));
  divergence = ground (arith, p.divergence);
  exclusive = ground (arith, p.exclusive);
}

-- Every record is counted in exactly one of the five categories of controller divergence and in at most one
-- of the two of output change. The number of records fits 64 bits.
pub diagnose-IsPartitioned :
    (tag_bytes : ℕ) (records : List DiagnosticRecord)
    → length records < 2 ^ 64
    → IsPartitioned (diagnose tag_bytes records) (length records)
unfolding diagnose
diagnose-IsPartitioned tag_bytes [] h = record {
  counted = refl;
  checked = (refl, refl);
  divergence = refl;
  exclusive = omega arith;
}
diagnose-IsPartitioned tag_bytes (r ∷ records) h =
    observe_diagnostic-IsPartitioned (diagnose tag_bytes records) r tag_bytes (length records)
      (diagnose-IsPartitioned tag_bytes records (omega arith)) h

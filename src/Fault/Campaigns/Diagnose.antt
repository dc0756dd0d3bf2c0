-- ===== src/Fault/Campaigns/Diagnose.antt =====
-- `test_finalization_diagnosis` of analysis/fault_injection_campaign.cpp, up to its printing.
pub mod Checked
pub mod Recorded
use perfectvaluecubesymmetri.Base.{
  ℕ, zero, suc, ◌+◌, ◌-◌, ◌*◌, ◌^◌, Bool, true, false, List, [], ◌∷◌, ltb, ◌==◌, if◌then◌else◌,
  same_bytes, Bytes, get_or, length, take, Result, ok, ◌>>=◌, ◌>>◌, require, runtime_error, not,
  ◌||◌, ◌&&◌,
}
use perfectvaluecubesymmetri.Fault.Bits.{bit_distance}
use perfectvaluecubesymmetri.Fault.Campaigns.{
  Frames, mac_frame_for_case, profile_state, profiles, replication_cases_per_profile,
}
use perfectvaluecubesymmetri.Fault.Cases.{make_case}
use perfectvaluecubesymmetri.Fault.Diagnosis.{
  DiagnosticRecord, DiagnosticAggregate, no_diagnostics, observe_diagnostic,
}
use perfectvaluecubesymmetri.Fault.Localization.{changed_bit}
use perfectvaluecubesymmetri.Fault.Regions.{cube_state_bits, c1_state_bits}
use perfectvaluecubesymmetri.Fault.State.{
  WorkingState, Pvc1, StateDistance, total, working_state_distance, flip_c1_state_bit,
}
use perfectvaluecubesymmetri.Fault.State.Trace.{
  FinalizationTrace, trace_finalization, extended_output_bytes, first_changed_byte,
  first_controller_stage, first_non_single_stage, remains_single_bit_until_output,
}
use perfectvaluecubesymmetri.Fault.Statistics.{no_index}
use perfectvaluecubesymmetri.Fault.Stream.{Cipher}
use perfectvaluecubesymmetri.Fault.TagFaults.{CampaignCase}
use perfectvaluecubesymmetri.Symmetric.{TagSize, Aead}

-- What the loop over the bits reads of one case.
pub record Diagnosed : Type 0 where
  pub case_index : ℕ
  pub tag_bytes : ℕ
  pub state : WorkingState
  pub message_length : ℕ
  pub canonical : Bytes
  pub trace : FinalizationTrace

-- The checks of the distance at the finalizer's entry.
pub check_entry : ℕ → StateDistance → Result (Unit {0})
check_entry state_bit distance = do
  require (total distance == 1) (runtime_error "fault was not present exactly at finalizer entry")
  require
      (not (ltb state_bit cube_state_bits)
        || (distance.cube_bits == 1
            && distance.controller_bits == 0
            && distance.metadata_bits == 0))
      (runtime_error "cube fault altered a non-cube entry field")

-- The record of a selected fault.
pub diagnose_fault : Pvc1 → Diagnosed → ℕ → WorkingState → Bytes → ℕ → Result DiagnosticRecord
diagnose_fault pvc1 d state_bit faulted_state faulted prefix_distance = do
  faulted_trace ← trace_finalization pvc1 faulted_state d.message_length
  require (same_bytes faulted (take (length faulted) faulted_trace.output))
      (runtime_error "diagnostic mirror does not match faulted finalizer")
  full_distance ← bit_distance (take 32 d.trace.output) (take 32 faulted_trace.output)
  extended_distance ← bit_distance d.trace.output faulted_trace.output
  let first_output = first_changed_byte d.trace.output faulted_trace.output
  changed_prefix_bit ←
      (if prefix_distance == 1
        then changed_bit (take d.tag_bytes d.canonical) (take d.tag_bytes faulted)
        else ok no_index)
  single ←
      remains_single_bit_until_output pvc1 d.trace faulted_trace
        (if first_output == no_index then extended_output_bytes - 1 else first_output)
  ok (record {
    profile_bits = d.tag_bytes * 8;
    case_index = d.case_index;
    state_bit = state_bit;
    prefix_distance = prefix_distance;
    full_distance = full_distance;
    extended_distance = extended_distance;
    first_changed_byte = first_output;
    changed_prefix_bit = changed_prefix_bit;
    first_controller_stage = first_controller_stage pvc1 d.trace faulted_trace;
    first_non_single_stage = first_non_single_stage pvc1 d.trace faulted_trace;
    single_bit_until_first_output = single;
  })

-- `silent` and `one_bit` of a profile, and `entry_checks`.
pub record Aggregates : Type 0 where
  pub silent : DiagnosticAggregate
  pub one_bit : DiagnosticAggregate
  pub entry_checks : ℕ

-- The body of the loop over the state's bits.
pub diagnose_bit : Pvc1 → Diagnosed → ℕ → Aggregates → Result Aggregates
unfolding check_entry diagnose_fault
diagnose_bit pvc1 d state_bit counts = do
  faulted_state ← flip_c1_state_bit pvc1 d.state state_bit
  check_entry state_bit (working_state_distance pvc1 d.state faulted_state)
  let checked : Aggregates = record counts { entry_checks = suc counts.entry_checks }
  let faulted = pvc1.bound_output faulted_state d.message_length
  prefix_distance ← bit_distance (take d.tag_bytes d.canonical) (take d.tag_bytes faulted)
  (if ltb 1 prefix_distance
      then ok checked
      else (diagnose_fault pvc1 d state_bit faulted_state faulted prefix_distance >>= λ found. ok (
          if prefix_distance == 0
          then record checked { silent = observe_diagnostic checked.silent found d.tag_bytes }
          else record checked { one_bit = observe_diagnostic checked.one_bit found d.tag_bytes })))

-- The loop over the last `count` bits, from `state_bit` on.
pub diagnose_bits : Pvc1 → Diagnosed → ℕ → ℕ → Aggregates → Result Aggregates
unfolding diagnose_bit
diagnose_bits pvc1 d zero state_bit counts = ok counts
diagnose_bits pvc1 d (suc count) state_bit counts = do
  next ← diagnose_bit pvc1 d state_bit counts
  diagnose_bits pvc1 d count (suc state_bit) next

-- The baseline of one case, with the check of the mirror.
pub diagnosed_case : Pvc1 → Cipher → Frames → ℕ → CampaignCase → Result Diagnosed
diagnosed_case pvc1 cipher frames case_index c = do
  mac_frame ← mac_frame_for_case frames c
  let tag = c.sealed.tag
  let canonical = cipher.keyed_output c.keys.authentication_key mac_frame
  require (same_bytes tag (take (length tag) canonical))
      (runtime_error "diagnostic C1 MAC baseline does not match sealed tag")
  let base_state = pvc1.evaluate c.keys.authentication_key mac_frame
  trace ← trace_finalization pvc1 base_state (length mac_frame)
  require (same_bytes canonical (take (length canonical) trace.output))
      (runtime_error "diagnostic mirror does not match canonical finalizer")
  ok (record {
    case_index = case_index;
    tag_bytes = length tag;
    state = base_state;
    message_length = length mac_frame;
    canonical = canonical;
    trace = trace;
  })

-- The loop over the last `count` cases of a profile.
pub diagnose_cases :
    Aead → Pvc1 → Cipher → Frames → TagSize → ℕ → ℕ → ℕ → Aggregates → Result Aggregates
unfolding diagnosed_case diagnose_bits
diagnose_cases a1 pvc1 cipher frames tag_size zero case_index random_state counts = ok counts
diagnose_cases a1 pvc1 cipher frames tag_size (suc count) case_index random_state counts = do
  (c, next_state) ← make_case a1 random_state tag_size
  d ← diagnosed_case pvc1 cipher frames case_index c
  next ← diagnose_bits pvc1 d c1_state_bits 0 counts
  diagnose_cases a1 pvc1 cipher frames tag_size count (suc case_index) next_state next

abbrev pub expected_silent : List ℕ
expected_silent = 3671 ∷ 2462 ∷ 1666 ∷ []

abbrev pub expected_one_bit : List ℕ
expected_one_bit = 9 ∷ 18 ∷ 8 ∷ []

-- The loop over the profiles, from `profile_index` on.
pub diagnose_profiles :
    Aead → Pvc1 → Cipher → Frames → List TagSize → ℕ → ℕ → Result (List Aggregates)
unfolding diagnose_cases
diagnose_profiles a1 pvc1 cipher frames [] profile_index entry_checks = ok []
diagnose_profiles a1 pvc1 cipher frames (tag_size ∷ sizes) profile_index entry_checks = do
  counts ←
      diagnose_cases a1 pvc1 cipher frames tag_size replication_cases_per_profile 0
        (profile_state profile_index)
        (record { silent = no_diagnostics; one_bit = no_diagnostics; entry_checks = entry_checks })
  require (counts.silent.count == get_or expected_silent profile_index 0)
      (runtime_error "diagnostic campaign did not reproduce silent-prefix count")
  require (counts.one_bit.count == get_or expected_one_bit profile_index 0)
      (runtime_error "diagnostic campaign did not reproduce distance-one count")
  rest ← diagnose_profiles a1 pvc1 cipher frames sizes (suc profile_index) counts.entry_checks
  ok (counts ∷ rest)

pub test_finalization_diagnosis : Aead → Pvc1 → Cipher → Frames → Result (List Aggregates)
unfolding diagnose_profiles
test_finalization_diagnosis a1 pvc1 cipher frames =
    diagnose_profiles a1 pvc1 cipher frames profiles 0 0

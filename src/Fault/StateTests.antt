-- ===== src/Fault/StateTests.antt =====
-- The theorems on state faults, modes and samples at concrete data.
use perfectvaluecubesymmetri.Base.{
  ℕ, ◌≤◌, ◌≡◌, refl, true, false, [], ◌∷◌, ◌++◌, arith, Bytes, AllBytes, length, take, replicate,
  length-replicate, ok, List, codes,
}
use perfectvaluecubesymmetri.Symmetric.Toy.{toy, toy_a1, toy-Documented}
use perfectvaluecubesymmetri.Fault.Bits.{bit_distance, flip_vector_bit}
use perfectvaluecubesymmetri.Fault.Campaigns.Diagnose.{Diagnosed, Aggregates}
use perfectvaluecubesymmetri.Fault.Cases.{make_cases}
use perfectvaluecubesymmetri.Fault.Cases.Sealed.{AreMade, make_cases-ok}
use perfectvaluecubesymmetri.Fault.Diagnosis.{no_diagnostics}
use perfectvaluecubesymmetri.Fault.Families.{CubeFaultSet, family_overlap}
use perfectvaluecubesymmetri.Fault.Families.Overlaps.{family_overlap-bounds, AllWithin}
use perfectvaluecubesymmetri.Fault.Localization.{changed_bit}
use perfectvaluecubesymmetri.Fault.Localization.Changed.{changed_bit-flip}
use perfectvaluecubesymmetri.Fault.Runs.{Mode, no_mode, mode_of}
use perfectvaluecubesymmetri.Fault.State.{WorkingState, flip_c1_state_bit, working_state_distance}
use perfectvaluecubesymmetri.Fault.State.Faults.{flip_c1_state_bit_once, one_fault}
use perfectvaluecubesymmetri.Fault.State.Toy.{toy_pvc1, toy_cipher, toy-DocumentedState}
use perfectvaluecubesymmetri.Fault.State.Trace.{FinalizationTrace, trace_finalization}
use perfectvaluecubesymmetri.Fault.State.Trace.Stages.{trace_finalization-ok}
use perfectvaluecubesymmetri.Fault.TagFaults.{CampaignCase}

abbrev key : Bytes
key = replicate 32 2

abbrev state : WorkingState
state = toy_pvc1.evaluate key (8 ∷ 9 ∷ [])

flip_c1_state_bit_once_example :
    (faulted : WorkingState) × (flip_c1_state_bit toy_pvc1 state 4100 ≡ ok faulted)
    × (working_state_distance toy_pvc1 state faulted ≡ one_fault toy_pvc1 toy-DocumentedState 4100)
    × (flip_c1_state_bit toy_pvc1 faulted 4100 ≡ ok state)
    × (length faulted.cube ≡ 512)
flip_c1_state_bit_once_example =
    flip_c1_state_bit_once toy_pvc1 toy-DocumentedState state 4100 (length-replicate {A = ℕ} 512 2)
      (omega arith)

trace_finalization-ok_example :
    (trace : FinalizationTrace) × (trace_finalization toy_pvc1 state 2 ≡ ok trace)
    × (length trace.stages ≡ 83)
    × (take 1 trace.stages ≡ state ∷ [])
    × (length trace.output ≡ 64)
    × AllBytes trace.output
trace_finalization-ok_example = trace_finalization-ok toy_pvc1 state 2

abbrev value : Bytes
value = 1 ∷ 2 ∷ 3 ∷ []

at_distance_one : bit_distance value (1 ∷ 6 ∷ 3 ∷ []) ≡ ok 1
unfolding bit_distance
at_distance_one = refl

changed_bit-flip_example :
    (bit : ℕ) × (changed_bit value (1 ∷ 6 ∷ 3 ∷ []) ≡ ok bit)
    × (flip_vector_bit value bit ≡ ok (1 ∷ 6 ∷ 3 ∷ []))
changed_bit-flip_example =
    changed_bit-flip value (1 ∷ 6 ∷ 3 ∷ []) (omega arith, (omega arith, (omega arith, tt)))
      (omega arith, (omega arith, (omega arith, tt))) at_distance_one

make_cases-ok_example :
    (cases : List CampaignCase) × (make_cases toy_a1 ≡ ok cases) × AreMade toy_a1 cases
make_cases-ok_example = make_cases-ok toy_a1 toy toy-Documented

abbrev cube_sets : List CubeFaultSet
cube_sets = (true ∷ false ∷ true ∷ []) ∷ (false ∷ false ∷ true ∷ []) ∷ []

family_overlap-bounds_example :
    let o = family_overlap cube_sets in
    AllWithin o.intersection o.union cube_sets
    × (o.union ≤ o.total_selected)
    × (o.pairs.min_ppm ≤ o.pairs.max_ppm)
    × (o.pairs.max_ppm ≤ 1000000)
family_overlap-bounds_example = family_overlap-bounds cube_sets

abbrev map_mode : Mode
map_mode = record no_mode { print_map = true }

mode_of_map : mode_of (codes "--map" ∷ []) ≡ ok map_mode
unfolding mode_of
mode_of_map = refl

abbrev mac_frame : Bytes
mac_frame = replicate 24 4 ++ (8 ∷ []) ++ replicate 96 6

abbrev mac_output : Bytes
mac_output = toy_cipher.keyed_output key mac_frame

-- A case with the tag that the toy cipher gives.
abbrev tagged_case : CampaignCase
tagged_case = record {
  keys = record { encryption_key = replicate 32 1; authentication_key = key };
  nonce = replicate 24 4;
  associated_data = 8 ∷ [];
  plaintext = replicate 96 5;
  tag_size = 16;
  sealed = record { ciphertext = replicate 96 6; tag = take 16 mac_output };
}

abbrev diagnosed : Diagnosed
diagnosed = record {
  case_index = 0;
  tag_bytes = 16;
  state = state;
  message_length = 2;
  canonical = toy_pvc1.bound_output state 2;
  trace = (trace_finalization-ok toy_pvc1 state 2).0;
}

abbrev no_aggregates : Aggregates
no_aggregates = record { entry_checks = 0; silent = no_diagnostics; one_bit = no_diagnostics }

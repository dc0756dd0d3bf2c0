-- ===== src/Fault/State.antt =====
-- The state of the vendored PVC-PRF-1 as analysis/fault_injection_campaign.cpp reads and faults it.
-- The vendored types are records; the vendored functions are the parameter `Pvc1`.
pub mod Faults
pub mod Trace
pub mod Toy
use perfectvaluecubesymmetri.Base.{
  ℕ, ◌+◌, ◌-◌, ◌/◌, ◌%◌, ◌^◌, bit_xor, ltb, if◌then◌else◌, Bytes, get_or, set, Result, ok, err,
  ◌>>=◌, ◌>>◌, require, runtime_error,
}
use perfectvaluecubesymmetri.Fault.Bits.{popcount, sum_distance}
use perfectvaluecubesymmetri.Fault.Regions.{cube_state_bits, c1_state_bits}

-- `pvc1::Coord`.
pub record Coord : Type 0 where
  pub x : ℕ
  pub y : ℕ
  pub z : ℕ

-- `pvc1::ControllerState`, of words of 16, 16, 32 and 64 bits.
pub record ControllerState : Type 0 where
  pub axis_control : ℕ
  pub amount_control : ℕ
  pub feedback : ℕ
  pub transcript : ℕ

-- `pvc1::WorkingState`; the cube by its storage, the axis by its underlying value.
pub record WorkingState : Type 0 where
  pub cube : Bytes
  pub cursor : Coord
  pub previous_axis : ℕ
  pub controller : ControllerState
  pub symbol_index : ℕ

-- The two of the domains that the campaign enters.
pub data Domain : Type 0 where
  finalization squeeze : Domain

-- The vendored functions that the campaign calls: `Cube::index`, `controller_bit_distance`,
-- `enter_domain`, `absorb_symbol`, `evaluate_keyed_return_a2` and `research_bound_output_a2`.
pub record Pvc1 : Type 0 where
  pub cell_index : Coord → ℕ
  pub controller_bit_distance : ControllerState → ControllerState → ℕ
  pub enter_domain : WorkingState → Domain → ℕ → WorkingState
  pub absorb_symbol : WorkingState → ℕ → Domain → ℕ → WorkingState
  pub evaluate : Bytes → Bytes → WorkingState
  pub bound_output : WorkingState → ℕ → Bytes

pub record StateDistance : Type 0 where
  pub cube_bits : ℕ
  pub controller_bits : ℕ
  pub metadata_bits : ℕ

-- `StateDistance::total`.
abbrev pub total : StateDistance → ℕ
total distance = distance.cube_bits + distance.controller_bits + distance.metadata_bits

-- The loop over the cells is that of `bit_distance`.
pub working_state_distance : Pvc1 → WorkingState → WorkingState → StateDistance
working_state_distance pvc1 left right = record {
  cube_bits = sum_distance left.cube right.cube;
  controller_bits = pvc1.controller_bit_distance left.controller right.controller;
  metadata_bits =
      popcount 32 (bit_xor left.cursor.x right.cursor.x)
      + popcount 32 (bit_xor left.cursor.y right.cursor.y)
      + popcount 32 (bit_xor left.cursor.z right.cursor.z)
      + popcount 32 (bit_xor left.previous_axis right.previous_axis)
      + popcount 64 (bit_xor left.symbol_index right.symbol_index);
}

-- The coordinate of a cell, three binary digits for each axis.
abbrev pub cell_coord : ℕ → Coord
cell_coord cell = record { x = cell % 8; y = cell / 8 % 8; z = cell / 64 % 8 }

-- `state.cube.at(coordinate) ^= 1U << bit_in_cell`.
abbrev pub flip_cell : Pvc1 → WorkingState → ℕ → WorkingState
flip_cell pvc1 state bit =
    let index = pvc1.cell_index (cell_coord (bit / 8)) in
    record state {
      cube = set state.cube index (bit_xor (get_or state.cube index 0) (2 ^ (bit % 8)));
    }

-- The controller's part: its four words, one after another.
abbrev pub flip_controller : ControllerState → ℕ → ControllerState
flip_controller controller bit =
    let amount_bit = bit - 16 in
    let feedback_bit = amount_bit - 16 in
    let transcript_bit = feedback_bit - 32 in
    if ltb bit 16
    then record controller { axis_control = bit_xor controller.axis_control (2 ^ bit) }
    else if ltb amount_bit 16
    then record controller { amount_control = bit_xor controller.amount_control (2 ^ amount_bit) }
    else if ltb feedback_bit 32
    then record controller { feedback = bit_xor controller.feedback (2 ^ feedback_bit) }
    else record controller { transcript = bit_xor controller.transcript (2 ^ transcript_bit) }

pub flip_c1_state_bit : Pvc1 → WorkingState → ℕ → Result WorkingState
flip_c1_state_bit pvc1 state bit = do
  require (ltb bit c1_state_bits) (runtime_error "C1 state fault bit is outside model")
  (if ltb bit cube_state_bits
      then ok (flip_cell pvc1 state bit)
      else require (ltb (bit - cube_state_bits - 16 - 16 - 32) 64)
          (runtime_error "C1 transcript fault bit is outside model")
        >> ok (record state {
          controller = flip_controller state.controller (bit - cube_state_bits);
        }))

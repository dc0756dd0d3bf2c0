-- ===== src/Fault/State/Trace.antt =====
-- The mirror of the vendored finalization in analysis/fault_injection_campaign.cpp, which keeps the state
-- of every stage, and the comparisons of two such traces.
pub mod Stages
use perfectvaluecubesymmetri.Base.{
  ℕ, zero, suc, ◌+◌, ◌-◌, ◌*◌, ◌/◌, ◌%◌, ◌^◌, Bool, true, not, ◌&&◌, List, [], ◌∷◌, ◌++◌, bit_xor,
  ltb, ◌==◌, if◌then◌else◌, Bytes, get_or, length, Result, ok, ◌>>=◌, ◌>>◌, require, runtime_error,
}
use perfectvaluecubesymmetri.Fault.State.{
  Coord, ControllerState, WorkingState, Pvc1, finalization, squeeze, total, working_state_distance,
}
use perfectvaluecubesymmetri.Fault.Statistics.{no_index}

-- `std::rotl` of a byte and of a word of 64 bits.
pub rotl8 : ℕ → ℕ → ℕ
rotl8 value shift = let s = shift % 8 in (value * 2 ^ s + value / 2 ^ (8 - s)) % 2 ^ 8

pub rotl64 : ℕ → ℕ → ℕ
rotl64 value shift = let s = shift % 64 in (value * 2 ^ s + value / 2 ^ (64 - s)) % 2 ^ 64

pub byte32 : ℕ → ℕ → ℕ
byte32 value index = value / 2 ^ (index % 4 * 8) % 256

pub byte64 : ℕ → ℕ → ℕ
byte64 value index = value / 2 ^ (index % 8 * 8) % 256

pub diagnostic_output_coord : ℕ → ℕ → ℕ → Coord
unfolding rotl64
diagnostic_output_coord selector round lane =
    let mixed =
      rotl64 ((selector + (round + 1) * 11400714785074694791 % 2 ^ 64) % 2 ^ 64)
        (lane * 13 + round) in
    record { x = mixed % 8; y = mixed / 2 ^ 17 % 8; z = mixed / 2 ^ 41 % 8 }

pub diagnostic_controller_bytes : ControllerState → Bytes
unfolding byte32 byte64
diagnostic_controller_bytes controller =
    controller.axis_control % 256
    ∷ controller.axis_control / 2 ^ 8 % 256
    ∷ controller.amount_control % 256
    ∷ controller.amount_control / 2 ^ 8 % 256
    ∷ byte32 controller.feedback 0
    ∷ byte32 controller.feedback 1
    ∷ byte32 controller.feedback 2
    ∷ byte32 controller.feedback 3
    ∷ byte64 controller.transcript 0
    ∷ byte64 controller.transcript 1
    ∷ byte64 controller.transcript 2
    ∷ byte64 controller.transcript 3
    ∷ byte64 controller.transcript 4
    ∷ byte64 controller.transcript 5
    ∷ byte64 controller.transcript 6
    ∷ byte64 controller.transcript 7
    ∷ []

-- `selector` in `diagnostic_output_byte`.
pub output_selector : ControllerState → ℕ
output_selector controller =
    bit_xor
      (bit_xor (bit_xor controller.transcript (controller.feedback * 2 ^ 19 % 2 ^ 64))
        (controller.axis_control * 2 ^ 3 % 2 ^ 64))
      (controller.amount_control * 2 ^ 43 % 2 ^ 64)

-- `controller_mix` in `diagnostic_output_byte`.
pub controller_mix : ControllerState → ℕ → ℕ
unfolding byte32 byte64
controller_mix controller round =
    bit_xor
      (bit_xor
        (bit_xor (byte64 controller.transcript round) (byte32 controller.feedback (round + 1)))
        (controller.axis_control / 2 ^ (round % 2 * 8) % 256))
      (controller.amount_control / 2 ^ ((round + 1) % 2 * 8) % 256)

-- `cube_mix` in `diagnostic_output_byte`.
pub cube_mix : Pvc1 → WorkingState → ℕ → ℕ
unfolding rotl8 rotl64 diagnostic_output_coord output_selector
cube_mix pvc1 state round =
    let selector = output_selector state.controller in
    let cell = λ (c : Coord). get_or state.cube (pvc1.cell_index c) 0 in
    let c0 = diagnostic_output_coord selector round 0 in
    let c1 = diagnostic_output_coord (rotl64 selector 23) round 1 in
    let c2 = diagnostic_output_coord (rotl64 selector 47) round 2 in
    bit_xor ((cell c0 + rotl8 (cell c1) round) % 256) (rotl8 (cell c2) (round + 3))

pub diagnostic_output_byte : Pvc1 → WorkingState → ℕ → ℕ
unfolding cube_mix controller_mix
diagnostic_output_byte pvc1 state round =
    (cube_mix pvc1 state round + controller_mix state.controller round + round * 37 % 256) % 256

pub record FinalizationTrace : Type 0 where
  pub output : Bytes
  pub stages : List WorkingState

-- The loop over the binding bytes, from `index` on: the state after each, and the last one.
pub bind_bytes : Pvc1 → ℕ → ℕ → Bytes → WorkingState → List WorkingState × WorkingState
unfolding byte64
bind_bytes pvc1 message_length index [] state = ([], state)
bind_bytes pvc1 message_length index (b ∷ binding) state =
    let symbol = bit_xor (bit_xor b (byte64 message_length index)) ((index * 29 + 83) % 256) in
    let next = pvc1.absorb_symbol state symbol finalization 4 in
    let (stages, last) = bind_bytes pvc1 message_length (suc index) binding next in
    (next ∷ stages, last)

-- The loop over the last `count` rounds: the output bytes, and the state after each.
pub squeeze_bytes : Pvc1 → ℕ → ℕ → WorkingState → Bytes × List WorkingState
unfolding diagnostic_output_byte
squeeze_bytes pvc1 zero round state = ([], [])
squeeze_bytes pvc1 (suc count) round state =
    let b = diagnostic_output_byte pvc1 state round in
    let next = pvc1.absorb_symbol state (bit_xor b round % 256) squeeze 2 in
    let (output, stages) = squeeze_bytes pvc1 count (suc round) next in (b ∷ output, next ∷ stages)

abbrev pub extended_output_bytes : ℕ
extended_output_bytes = 64

abbrev pub trace_stage_count : ℕ
trace_stage_count = 19 + extended_output_bytes

pub trace_finalization : Pvc1 → WorkingState → ℕ → Result FinalizationTrace
unfolding diagnostic_controller_bytes bind_bytes squeeze_bytes
trace_finalization pvc1 state message_length = do
  let entered = pvc1.enter_domain state finalization message_length
  let binding = diagnostic_controller_bytes entered.controller
  let (bound, last) = bind_bytes pvc1 message_length 0 binding entered
  let squeezed = pvc1.enter_domain last squeeze 32
  let (output, rounds) = squeeze_bytes pvc1 extended_output_bytes 0 squeezed
  let stages = state ∷ entered ∷ (bound ++ (squeezed ∷ rounds))
  require (length stages == trace_stage_count)
      (runtime_error "diagnostic trace stage count mismatch")
  ok (record { output = output; stages = stages })

-- The loops that return the first index at which two sequences differ, from `index` on.
pub first_difference {ℓ} : {A : Type ℓ} → (A → A → Bool) → ℕ → List A → List A → ℕ
first_difference same index (x ∷ left) (y ∷ right) =
    let later = first_difference same (suc index) left right in if same x y then later else index
first_difference same index _ _ = no_index

pub first_changed_byte : Bytes → Bytes → ℕ
unfolding first_difference
first_changed_byte left right = first_difference ◌==◌ 0 left right

pub first_controller_stage : Pvc1 → FinalizationTrace → FinalizationTrace → ℕ
unfolding first_difference
first_controller_stage pvc1 canonical faulted =
    first_difference
      (λ (a b : WorkingState). pvc1.controller_bit_distance a.controller b.controller == 0) 0
      canonical.stages faulted.stages

pub first_non_single_stage : Pvc1 → FinalizationTrace → FinalizationTrace → ℕ
unfolding first_difference
first_non_single_stage pvc1 canonical faulted =
    first_difference (λ (a b : WorkingState). total (working_state_distance pvc1 a b) == 1) 0
      canonical.stages faulted.stages

-- The loop over the first `count` stages: `true` if all are at distance one.
pub all_single : Pvc1 → ℕ → List WorkingState → List WorkingState → Bool
all_single pvc1 (suc count) (a ∷ canonical) (b ∷ faulted) =
    total (working_state_distance pvc1 a b) == 1 && all_single pvc1 count canonical faulted
all_single pvc1 _ _ _ = true

pub remains_single_bit_until_output : Pvc1 → FinalizationTrace → FinalizationTrace → ℕ → Result Bool
unfolding all_single
remains_single_bit_until_output pvc1 canonical faulted output_byte = do
  let last_state_stage = 18 + output_byte
  require (ltb last_state_stage (length canonical.stages))
      (runtime_error "diagnostic output byte exceeds trace stages")
  ok (all_single pvc1 (suc last_state_stage) canonical.stages faulted.stages)

-- ===== src/Fault/State/Faults.antt =====
-- A single faulted bit of the state.
use native.Mathlib.Nat.{pow-suc}
use perfectvaluecubesymmetri.Base.{
  ℕ, zero, suc, ◌+◌, ◌-◌, ◌/◌, ◌%◌, ◌^◌, ◌<◌, ◌≡◌, refl, sym, ap, ◌∙◌, bit_xor, arith, ltb, ltb→lt,
  if◌then◌else◌, Bool-cases, inl, inr, length, get_or, length-set, ok,
}
use perfectvaluecubesymmetri.Base.Xor.{bit_xor_cancel, bit_xor_assoc, bit_xor_self, zero-bit_xor}
use perfectvaluecubesymmetri.Fault.Bits.{
  popcount, popcount_zero, sum_distance_self, sum_distance_flip, set_back,
}
use perfectvaluecubesymmetri.Fault.Regions.{cube_state_bits, c1_state_bits}
use perfectvaluecubesymmetri.Fault.State.{
  Coord, ControllerState, WorkingState, Pvc1, StateDistance, working_state_distance, cell_coord,
  flip_cell, flip_controller, flip_c1_state_bit,
}

-- What the campaign relies on: coordinates are those of the 512 cells, and the controllers' distance
-- adds up those of the four words.
pub record DocumentedState (pvc1 : Pvc1) : Type 0 where
  pub cells : (c : Coord) → c.x < 8 → c.y < 8 → c.z < 8 → pvc1.cell_index c < 512
  pub controllers :
      (a b : ControllerState)
      → pvc1.controller_bit_distance a b
        ≡ popcount 16 (bit_xor a.axis_control b.axis_control)
          + popcount 16 (bit_xor a.amount_control b.amount_control)
          + popcount 32 (bit_xor a.feedback b.feedback)
          + popcount 64 (bit_xor a.transcript b.transcript)

pub popcount_one : (width k : ℕ) → k < width → popcount width (2 ^ k) ≡ 1
unfolding popcount
popcount_one zero k h = absurd (omega arith)
popcount_one (suc width) zero h = omega (arith, popcount_zero width)
popcount_one (suc width) (suc k) h =
    let half : 2 ^ suc k / 2 ≡ 2 ^ k = omega (arith, pow-suc 2 k) in
    omega (arith, pow-suc 2 k, ap (popcount width) half, popcount_one width k (omega arith))

popcount_same : (width x : ℕ) → popcount width (bit_xor x x) ≡ 0
popcount_same width x = ap (popcount width) (bit_xor_self x) ∙ popcount_zero width

popcount_flip : (width x k : ℕ) → k < width → popcount width (bit_xor x (bit_xor x (2 ^ k))) ≡ 1
popcount_flip width x k h =
    ap (popcount width) (
      sym (bit_xor_assoc x x (2 ^ k))
      ∙ ap (λ a. bit_xor a (2 ^ k)) (bit_xor_self x)
      ∙ zero-bit_xor (2 ^ k))
    ∙ popcount_one width k h

-- A bit of one of the controller's words.
data Place : Type 0 where
  in_axis in_amount in_feedback in_transcript : ℕ → Place

abbrev IsInside : Place → Type 0
IsInside (in_axis k) = k < 16
IsInside (in_amount k) = k < 16
IsInside (in_feedback k) = k < 32
IsInside (in_transcript k) = k < 64

abbrev flip_place : ControllerState → Place → ControllerState
flip_place c (in_axis k) = record c { axis_control = bit_xor c.axis_control (2 ^ k) }
flip_place c (in_amount k) = record c { amount_control = bit_xor c.amount_control (2 ^ k) }
flip_place c (in_feedback k) = record c { feedback = bit_xor c.feedback (2 ^ k) }
flip_place c (in_transcript k) = record c { transcript = bit_xor c.transcript (2 ^ k) }

-- Which word a bit of the controller stands in.
place :
    (bit : ℕ)
    → bit < 128
    → (w : Place) × IsInside w × ((c : ControllerState) → flip_controller c bit ≡ flip_place c w)
place bit h = elim (Bool-cases (ltb bit 16)) [
  | inl a ↦ (in_axis bit, ltb→lt bit 16 a, λ c. rw a refl)
  | inr a ↦ elim (Bool-cases (ltb (bit - 16) 16)) [
    | inl b ↦ (in_amount (bit - 16), ltb→lt (bit - 16) 16 b, λ c. rw (a, b) refl)
    | inr b ↦ elim (Bool-cases (ltb (bit - 16 - 16) 32)) [
      | inl d ↦ (in_feedback (bit - 16 - 16), ltb→lt (bit - 16 - 16) 32 d, λ c. rw (a, b, d) refl)
      | inr d ↦ (in_transcript (bit - 16 - 16 - 32), ground arith, λ c. rw (a, b, d) refl)
    ]
  ]
]

flip_place_back : (c : ControllerState) (w : Place) → flip_place (flip_place c w) w ≡ c
flip_place_back c (in_axis k) =
    ap (λ a. record c { axis_control = a }) (bit_xor_cancel c.axis_control (2 ^ k))
flip_place_back c (in_amount k) =
    ap (λ a. record c { amount_control = a }) (bit_xor_cancel c.amount_control (2 ^ k))
flip_place_back c (in_feedback k) =
    ap (λ a. record c { feedback = a }) (bit_xor_cancel c.feedback (2 ^ k))
flip_place_back c (in_transcript k) =
    ap (λ a. record c { transcript = a }) (bit_xor_cancel c.transcript (2 ^ k))

module _ (pvc1 : Pvc1) (documented : DocumentedState pvc1) where
  same_controllers : (c : ControllerState) → pvc1.controller_bit_distance c c ≡ 0
  same_controllers c = omega (
    arith,
    documented.controllers c c,
    popcount_same 16 c.axis_control,
    popcount_same 16 c.amount_control,
    popcount_same 32 c.feedback,
    popcount_same 64 c.transcript,
  )

  flip_place_distance :
      (c : ControllerState) (w : Place)
      → IsInside w
      → pvc1.controller_bit_distance c (flip_place c w) ≡ 1
  flip_place_distance c (in_axis k) h = omega (
    arith,
    documented.controllers c (flip_place c (in_axis k)),
    popcount_flip 16 c.axis_control k h,
    popcount_same 16 c.amount_control,
    popcount_same 32 c.feedback,
    popcount_same 64 c.transcript,
  )
  flip_place_distance c (in_amount k) h = omega (
    arith,
    documented.controllers c (flip_place c (in_amount k)),
    popcount_same 16 c.axis_control,
    popcount_flip 16 c.amount_control k h,
    popcount_same 32 c.feedback,
    popcount_same 64 c.transcript,
  )
  flip_place_distance c (in_feedback k) h = omega (
    arith,
    documented.controllers c (flip_place c (in_feedback k)),
    popcount_same 16 c.axis_control,
    popcount_same 16 c.amount_control,
    popcount_flip 32 c.feedback k h,
    popcount_same 64 c.transcript,
  )
  flip_place_distance c (in_transcript k) h = omega (
    arith,
    documented.controllers c (flip_place c (in_transcript k)),
    popcount_same 16 c.axis_control,
    popcount_same 16 c.amount_control,
    popcount_same 32 c.feedback,
    popcount_flip 64 c.transcript k h,
  )

  -- The distance of a fault: one bit, of the cube or of the controller.
  abbrev pub one_fault : ℕ → StateDistance
  one_fault bit = record {
    cube_bits = if ltb bit cube_state_bits then 1 else 0;
    controller_bits = if ltb bit cube_state_bits then 0 else 1;
    metadata_bits = 0;
  }

  distance_eq :
      (d : StateDistance) (cube controller : ℕ)
      → d.cube_bits ≡ cube
      → d.controller_bits ≡ controller
      → d.metadata_bits ≡ 0
      → d ≡ record { cube_bits = cube; controller_bits = controller; metadata_bits = 0 }
  distance_eq d cube controller a b m = rw (a, b, m) refl

  same_metadata :
      (left right : WorkingState)
      → left.cursor ≡ right.cursor
      → left.previous_axis ≡ right.previous_axis
      → left.symbol_index ≡ right.symbol_index
      → (working_state_distance pvc1 left right).metadata_bits ≡ 0
  unfolding working_state_distance
  same_metadata left right c a s =
      rw (sym c, sym a, sym s)
        (omega (
          arith,
          popcount_same 32 left.cursor.x,
          popcount_same 32 left.cursor.y,
          popcount_same 32 left.cursor.z,
          popcount_same 32 left.previous_axis,
          popcount_same 64 left.symbol_index,
        ))

  flip_cell_distance :
      (state : WorkingState) (bit : ℕ)
      → length state.cube ≡ 512
      → (working_state_distance pvc1 state (flip_cell pvc1 state bit)
          ≡ record { cube_bits = 1; controller_bits = 0; metadata_bits = 0 })
        × (flip_cell pvc1 (flip_cell pvc1 state bit) bit ≡ state)
        × (length (flip_cell pvc1 state bit).cube ≡ 512)
  flip_cell_distance state bit size =
      let i = pvc1.cell_index (cell_coord (bit / 8)) in
      let inside : i < 512 =
        documented.cells (cell_coord (bit / 8)) (omega arith) (omega arith) (omega arith) in
      (
        distance_eq (working_state_distance pvc1 state (flip_cell pvc1 state bit)) 1 0
            (unfold working_state_distance in
              sum_distance_flip state.cube i (bit % 8) (omega (arith, inside)) (omega arith))
            (unfold working_state_distance in same_controllers state.controller)
            (same_metadata state (flip_cell pvc1 state bit) refl refl refl),
        ap (λ cells. record state { cube = cells }) (set_back state.cube i (2 ^ (bit % 8))),
        length-set state.cube i (bit_xor (get_or state.cube i 0) (2 ^ (bit % 8))) ∙ size,
      )

  flip_controller_distance :
      (state : WorkingState) (bit : ℕ)
      → bit < 128
      → let faulted : WorkingState = record state {
        controller = flip_controller state.controller bit;
      } in
        (working_state_distance pvc1 state faulted
          ≡ record { cube_bits = 0; controller_bits = 1; metadata_bits = 0 })
        × (flip_controller (flip_controller state.controller bit) bit ≡ state.controller)
  flip_controller_distance state bit h =
      let (w, inside, flips) = place bit h in
      let c = state.controller in
      let faulted : WorkingState = record state { controller = flip_controller c bit } in
      (
        distance_eq (working_state_distance pvc1 state faulted) 0 1
            (unfold working_state_distance in sum_distance_self state.cube)
            (unfold working_state_distance in
              ap (pvc1.controller_bit_distance c) (flips c) ∙ flip_place_distance c w inside)
            (same_metadata state faulted refl refl refl),
        ap (λ d. flip_controller d bit) (flips c) ∙ flips (flip_place c w) ∙ flip_place_back c w,
      )

  -- Inside the state a flip succeeds and puts the fault in the cube for the first 4096 bits and in the
  -- controller for the others, at distance one and nowhere else; flipping the bit again restores the
  -- state. The cube has its 512 cells.
  pub flip_c1_state_bit_once :
      (state : WorkingState) (bit : ℕ)
      → length state.cube ≡ 512
      → bit < c1_state_bits
      → (faulted : WorkingState) × (flip_c1_state_bit pvc1 state bit ≡ ok faulted)
        × (working_state_distance pvc1 state faulted ≡ one_fault bit)
        × (flip_c1_state_bit pvc1 faulted bit ≡ ok state)
        × (length faulted.cube ≡ 512)
  unfolding flip_c1_state_bit
  flip_c1_state_bit_once state bit size h = elim (Bool-cases (ltb bit cube_state_bits)) [
    | inl cell ↦
        let (d, back, l) = flip_cell_distance state bit size in
        (flip_cell pvc1 state bit, ground arith, rw cell d, ground (arith, back), l)
    | inr word ↦
        let (d, back) = flip_controller_distance state (bit - cube_state_bits) (ground arith) in
        (
          record state { controller = flip_controller state.controller (bit - cube_state_bits) },
          ground arith,
          rw word d,
          ground (arith, back),
          size,
        )
  ]

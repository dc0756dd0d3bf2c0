-- ===== src/Fault/State/Toy.antt =====
-- Vendored functions that behave as documented, to apply the theorems to.
use perfectvaluecubesymmetri.Base.{
  ℕ, ◌+◌, ◌*◌, refl, [], ◌∷◌, ◌++◌, arith, bit_xor, Bytes, get_or, length, take, length-take,
  replicate, length-replicate,
}
use perfectvaluecubesymmetri.Fault.Bits.{popcount}
use perfectvaluecubesymmetri.Fault.Campaigns.{Frames}
use perfectvaluecubesymmetri.Fault.Campaigns.Counted.{DocumentedOutputs, AllBytes-take}
use perfectvaluecubesymmetri.Fault.State.{Coord, ControllerState, WorkingState, Pvc1}
use perfectvaluecubesymmetri.Fault.State.Faults.{DocumentedState}
use perfectvaluecubesymmetri.Fault.State.Trace.Stages.{trace_finalization-ok}
use perfectvaluecubesymmetri.Fault.Stream.{Cipher}

-- The documented layout and distance; symbols are added up; the output is not yet that of the trace.
abbrev pub unfinished : Pvc1
unfinished = record {
  cell_index = λ (c : Coord). c.x + 8 * c.y + 64 * c.z;
  controller_bit_distance = λ (a b : ControllerState).
      popcount 16 (bit_xor a.axis_control b.axis_control)
      + popcount 16 (bit_xor a.amount_control b.amount_control)
      + popcount 32 (bit_xor a.feedback b.feedback)
      + popcount 64 (bit_xor a.transcript b.transcript);
  enter_domain = λ state domain n. state;
  absorb_symbol = λ (state : WorkingState) symbol domain n. record state {
    symbol_index = state.symbol_index + symbol;
  };
  evaluate = λ key frame. record {
    cube = replicate 512 (get_or key 0 0);
    cursor = record { x = 0; y = 0; z = 0 };
    previous_axis = 0;
    controller = record {
      axis_control = 1;
      amount_control = 2;
      feedback = 3;
      transcript = length frame;
    };
    symbol_index = 0;
  };
  bound_output = λ state n. [];
}

-- The first 32 bytes of a trace.
pub finished : WorkingState → ℕ → Bytes
finished state n = take 32 (trace_finalization-ok unfinished state n).0.output

abbrev pub toy_pvc1 : Pvc1
toy_pvc1 = record unfinished { bound_output = finished }

abbrev pub toy_cipher : Cipher
toy_cipher = record {
  frame_stream_block = λ nonce counter size. counter ∷ nonce;
  keyed_output = λ key frame. finished (unfinished.evaluate key frame) (length frame);
}

abbrev pub toy_frames : Frames
toy_frames = record {
  frame_authentication_context = λ nonce associated_data size. nonce ++ associated_data;
  frame_message = λ context message size. context ++ message;
}

pub toy-DocumentedState : DocumentedState toy_pvc1
toy-DocumentedState = record { cells = λ c hx hy hz. omega arith; controllers = λ a b. refl }

pub toy-DocumentedOutputs : DocumentedOutputs toy_pvc1 toy_cipher
unfolding finished
toy-DocumentedOutputs = record {
  state = toy-DocumentedState;
  output_length = λ s n.
      let (trace, runs, stages, first, width, bytes) = trace_finalization-ok unfinished s n in
      omega (arith, length-take 32 trace.output, width);
  output_bytes = λ s n.
      let (trace, runs, stages, first, width, bytes) = trace_finalization-ok unfinished s n in
      AllBytes-take 32 trace.output bytes;
  cells = λ key frame. length-replicate 512 (get_or key 0 0);
  finalizes = λ key frame. refl;
}

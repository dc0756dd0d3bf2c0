-- ===== src/Fault/Campaigns/Diagnose/Checked.antt =====
-- The checks in the loop of the diagnosis over the bits of the state.
use perfectvaluecubesymmetri.Base.{
  ◌≢◌, ◌⊎◌, same_bytes_eq, err, Exception, runtime_error, ℕ, ◌+◌, ◌*◌, ◌≤◌, ◌<◌, ◌≡◌, refl, sym, ap,
  subst, ◌∙◌, Bool-cases, inl, inr, arith, ltb, ◌==◌, ==_iff, if◌then◌else◌, same_bytes,
  same_bytes_refl, Bytes, AllBytes, length, take, length-take, ok,
}
use perfectvaluecubesymmetri.Fault.Bits.{bit_distance, sum_distance}
use perfectvaluecubesymmetri.Fault.Campaigns.Counted.{DocumentedOutputs, AllBytes-take}
use perfectvaluecubesymmetri.Fault.Campaigns.Diagnose.{Diagnosed, check_entry, diagnose_fault}
use perfectvaluecubesymmetri.Fault.Diagnosis.{DiagnosticRecord}
use perfectvaluecubesymmetri.Fault.Localization.{changed_bit}
use perfectvaluecubesymmetri.Fault.Localization.Changed.{changed_bit-flip}
use perfectvaluecubesymmetri.Fault.Regions.{cube_state_bits}
use perfectvaluecubesymmetri.Fault.State.{flip_c1_state_bit, WorkingState, Pvc1, StateDistance}
use perfectvaluecubesymmetri.Fault.State.Trace.{
  FinalizationTrace, trace_finalization, first_changed_byte, first_controller_stage,
  first_non_single_stage,
}
use perfectvaluecubesymmetri.Fault.State.Trace.Stages.{
  trace_finalization-ok, first_changed_byte-IsFirst, remains_single_bit_until_output-first,
}
use perfectvaluecubesymmetri.Fault.Statistics.{no_index}
use perfectvaluecubesymmetri.Fault.Stream.{Cipher}

-- What the baseline of a case establishes.
pub record IsDiagnosed (pvc1 : Pvc1) (d : Diagnosed) : Type 0 where
  pub cells : length d.state.cube ≡ 512
  pub tag_fits : d.tag_bytes ≤ 32
  pub canonical : d.canonical ≡ pvc1.bound_output d.state d.message_length
  pub stages : length d.trace.stages ≡ 83
  pub output : length d.trace.output ≡ 64

-- The message of the run that stops.
abbrev pub mirror_failure : Exception
mirror_failure = runtime_error "diagnostic mirror does not match faulted finalizer"

-- A record holds the distances and stages of a fault whose trace agrees with the finalizer.
pub record IsRecorded (pvc1 : Pvc1) (d : Diagnosed) (r : DiagnosticRecord) : Type 0 where
  pub faulted : WorkingState
  pub trace : FinalizationTrace
  pub flips : flip_c1_state_bit pvc1 d.state r.state_bit ≡ ok faulted
  pub runs : trace_finalization pvc1 faulted d.message_length ≡ ok trace
  pub mirrored : take 32 trace.output ≡ pvc1.bound_output faulted d.message_length
  pub prefix :
      bit_distance
        (take d.tag_bytes d.canonical)
        (take d.tag_bytes (pvc1.bound_output faulted d.message_length))
      ≡ ok r.prefix_distance
  pub full : bit_distance (take 32 d.trace.output) (take 32 trace.output) ≡ ok r.full_distance
  pub extended : bit_distance d.trace.output trace.output ≡ ok r.extended_distance
  pub first_changed : r.first_changed_byte ≡ first_changed_byte d.trace.output trace.output
  pub controller_stage : r.first_controller_stage ≡ first_controller_stage pvc1 d.trace trace
  pub non_single_stage : r.first_non_single_stage ≡ first_non_single_stage pvc1 d.trace trace

pub check_entry-one :
    (bit : ℕ) (distance : StateDistance)
    → distance ≡ record {
      cube_bits = if ltb bit cube_state_bits then 1 else 0;
      controller_bits = if ltb bit cube_state_bits then 0 else 1;
      metadata_bits = 0;
    }
    → check_entry bit distance ≡ ok tt
unfolding check_entry
check_entry-one bit distance e = elim (Bool-cases (ltb bit cube_state_bits)) [
  | inl cell ↦ rw (e, cell) refl
  | inr word ↦ rw (e, word) refl
]

-- The byte up to which the stages are compared is one of the 64.
last_byte :
    (left right : Bytes)
    → length left ≡ 64
    → length right ≡ 64
    → (if first_changed_byte left right == no_index then 63 else first_changed_byte left right) < 64
last_byte left right l r = elim (first_changed_byte-IsFirst left right (l ∙ sym r)) [
  | inl (none, same) ↦ rw none (omega arith)
  | inr (differ, inside, before) ↦ ground (arith, inside, l)
]

module _ (pvc1 : Pvc1) (cipher : Cipher) (documented : DocumentedOutputs pvc1 cipher)
    (d : Diagnosed) (fits : IsDiagnosed pvc1 d) where
  pub prefix_width :
      (s : WorkingState)
      → length (take d.tag_bytes (pvc1.bound_output s d.message_length)) ≡ d.tag_bytes
  prefix_width s = omega (
    arith,
    length-take d.tag_bytes (pvc1.bound_output s d.message_length),
    documented.output_length s d.message_length,
    fits.tag_fits,
  )

  prefix_bytes :
      (s : WorkingState) → AllBytes (take d.tag_bytes (pvc1.bound_output s d.message_length))
  prefix_bytes s =
      AllBytes-take d.tag_bytes (pvc1.bound_output s d.message_length)
        (documented.output_bytes s d.message_length)

  pub prefix_distance_ok :
      (faulted : WorkingState)
      → let output = pvc1.bound_output faulted d.message_length in
        bit_distance (take d.tag_bytes d.canonical) (take d.tag_bytes output)
        ≡ ok (sum_distance (take d.tag_bytes d.canonical) (take d.tag_bytes output))
  unfolding bit_distance
  prefix_distance_ok faulted = ground (
    arith,
    ap (λ (c : Bytes). length (take d.tag_bytes c)) fits.canonical ∙ prefix_width d.state,
    prefix_width faulted,
  )

  changed_prefix_ok :
      (faulted : WorkingState) (distance : ℕ)
      → let output = pvc1.bound_output faulted d.message_length in
        bit_distance (take d.tag_bytes d.canonical) (take d.tag_bytes output) ≡ ok distance
        → (bit : ℕ) × ((if distance == 1
              then changed_bit
                  (take d.tag_bytes d.canonical)
                  (take d.tag_bytes (pvc1.bound_output faulted d.message_length))
              else ok no_index)
            ≡ ok bit)
  changed_prefix_ok faulted distance e = elim (Bool-cases (distance == 1)) [
    | inl one ↦
        let output = pvc1.bound_output faulted d.message_length in
        let at : distance ≡ 1 = (==_iff distance 1).0 one in
        let (bit, found, flip) =
          changed_bit-flip (take d.tag_bytes d.canonical) (take d.tag_bytes output)
            (subst (λ (c : Bytes). AllBytes (take d.tag_bytes c)) (sym fits.canonical)
              (prefix_bytes d.state))
            (prefix_bytes faulted) (e ∙ ap ok at) in
        (bit, rw one found)
    | inr more ↦ (no_index, rw more refl)
  ]

  same_width :
      (left right : Bytes)
      → length left ≡ length right
      → bit_distance left right ≡ ok (sum_distance left right)
  unfolding bit_distance
  same_width left right l = ground (arith, l)

  -- A selected fault is recorded if its trace agrees with the finalizer, and stops the run otherwise.
  pub diagnose_fault-cases :
      (state_bit distance : ℕ) (faulted : WorkingState)
      → let output = pvc1.bound_output faulted d.message_length in
        flip_c1_state_bit pvc1 d.state state_bit ≡ ok faulted
        → bit_distance (take d.tag_bytes d.canonical) (take d.tag_bytes output) ≡ ok distance
        → ((found : DiagnosticRecord) × (diagnose_fault pvc1 d state_bit faulted output distance
              ≡ ok found)
            × IsRecorded pvc1 d found
            × (found.state_bit ≡ state_bit)
            × (found.prefix_distance ≡ distance))
          ⊎ ((trace : FinalizationTrace) × (trace_finalization pvc1 faulted d.message_length
                ≡ ok trace)
              × (take 32 trace.output ≢ output)
              × (diagnose_fault pvc1 d state_bit faulted output distance ≡ err mirror_failure))
  unfolding diagnose_fault
  diagnose_fault-cases state_bit distance faulted flips e =
      let output = pvc1.bound_output faulted d.message_length in
      let (trace, runs, stages, first, width, bytes) =
        trace_finalization-ok pvc1 faulted d.message_length in
      let long : length output ≡ 32 = documented.output_length faulted d.message_length in
      elim (Bool-cases (same_bytes output (take (length output) trace.output))) [
        | inl mirrored ↦
            let agrees : take 32 trace.output ≡ output = sym (
              same_bytes_eq output (take (length output) trace.output) mirrored
              ∙ ap (λ n. take n trace.output) long) in
            let full = same_width (take 32 d.trace.output) (take 32 trace.output) (
              omega (
                arith,
                length-take 32 d.trace.output,
                length-take 32 trace.output,
                fits.output,
                width,
              )) in
            let extended = same_width d.trace.output trace.output (fits.output ∙ sym width) in
            let (bit, changed) = changed_prefix_ok faulted distance e in
            let first_output = first_changed_byte d.trace.output trace.output in
            let single =
              remains_single_bit_until_output-first pvc1 d.trace trace
                (if first_output == no_index then 63 else first_output) fits.stages stages
                (last_byte d.trace.output trace.output fits.output width) in
            inl (
              record {
                profile_bits = d.tag_bytes * 8;
                case_index = d.case_index;
                state_bit = state_bit;
                prefix_distance = distance;
                full_distance = sum_distance (take 32 d.trace.output) (take 32 trace.output);
                extended_distance = sum_distance d.trace.output trace.output;
                first_changed_byte = first_output;
                changed_prefix_bit = bit;
                first_controller_stage = first_controller_stage pvc1 d.trace trace;
                first_non_single_stage = first_non_single_stage pvc1 d.trace trace;
                single_bit_until_first_output =
                    ltb (18 + (if first_output == no_index then 63 else first_output))
                      (first_non_single_stage pvc1 d.trace trace);
              },
              rw (runs, mirrored, full, extended, changed, single) refl,
              record {
                faulted = faulted;
                trace = trace;
                flips = flips;
                runs = runs;
                mirrored = agrees;
                prefix = e;
                full = full;
                extended = extended;
                first_changed = refl;
                controller_stage = refl;
                non_single_stage = refl;
              },
              refl,
              refl,
            )
        | inr differs ↦ inr (
          trace,
          runs,
          λ same. absurd (
              ground (
                arith,
                differs,
                ap (λ (b : Bytes). same_bytes output b) (ap (λ n. take n trace.output) long ∙ same)
                    ∙ same_bytes_refl output,
              )),
          rw (runs, differs) refl,
        )
      ]

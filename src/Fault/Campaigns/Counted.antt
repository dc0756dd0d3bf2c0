-- ===== src/Fault/Campaigns/Counted.antt =====
-- The loop over the bits of the state, and the campaign on the stream.
use perfectvaluecubesymmetri.Base.{
  ℕ, zero, suc, ◌+◌, ◌≤◌, ◌<◌, ◌≡◌, refl, sym, ap, subst, ◌∙◌, Bool, true, false, List, [], ◌∷◌, [],
  ◌∷◌, arith, if◌then◌else◌, Bytes, AllBytes, length, take, ok,
}
use perfectvaluecubesymmetri.Fault.Bits.{bit_distance, sum_distance, sum_distance-le}
use perfectvaluecubesymmetri.Fault.Campaigns.{Baseline, fault_state_bits}
use perfectvaluecubesymmetri.Fault.Localization.{
  StateLocalization, no_localization, localize_state_fault,
}
use perfectvaluecubesymmetri.Fault.Localization.Localized.{
  IsLocalized, localize_state_fault-IsLocalized,
}
use perfectvaluecubesymmetri.Fault.Regions.{c1_state_bits}
use perfectvaluecubesymmetri.Fault.State.{WorkingState, Pvc1, flip_c1_state_bit}
use perfectvaluecubesymmetri.Fault.State.Faults.{DocumentedState, flip_c1_state_bit_once}
use perfectvaluecubesymmetri.Fault.Statistics.{DistanceStats, no_distances, observe}
use perfectvaluecubesymmetri.Fault.Statistics.Measured.{
  IsMeasured, at_one, none-IsMeasured, observe-IsMeasured,
}
use perfectvaluecubesymmetri.Fault.Stream.{Cipher}
use perfectvaluecubesymmetri.Fault.TagFaults.{CampaignCase}
use perfectvaluecubesymmetri.Symmetric.{A1TagSize}

-- What the vendored functions promise: outputs of 32 bytes, a state with 512 cells, and a finalization
-- of that state that gives the canonical output.
pub record DocumentedOutputs (pvc1 : Pvc1) (cipher : Cipher) : Type 0 where
  pub state : DocumentedState pvc1
  pub output_length : (s : WorkingState) (n : ℕ) → length (pvc1.bound_output s n) ≡ 32
  pub output_bytes : (s : WorkingState) (n : ℕ) → AllBytes (pvc1.bound_output s n)
  pub cells : (key frame : Bytes) → length (pvc1.evaluate key frame).cube ≡ 512
  pub finalizes :
      (key frame : Bytes)
      → pvc1.bound_output (pvc1.evaluate key frame) (length frame) ≡ cipher.keyed_output key frame

-- The state is the documented one, and the part of an output that is compared has one width.
pub record IsBaseline (pvc1 : Pvc1) (base : Baseline) (width : ℕ) : Type 0 where
  pub cells : length base.state.cube ≡ 512
  pub canonical : base.canonical ≡ pvc1.bound_output base.state base.message_length
  pub view_length : (s : WorkingState) (n : ℕ) → length (base.view (pvc1.bound_output s n)) ≡ width
  pub view_bytes : (s : WorkingState) (n : ℕ) → AllBytes (base.view (pvc1.bound_output s n))

-- The distance that the fault of one bit of the state has.
abbrev pub HasDistance : Pvc1 → Baseline → ℕ → ℕ → Type 0
HasDistance pvc1 base bit d =
    (faulted : WorkingState) × (flip_c1_state_bit pvc1 base.state bit ≡ ok faulted)
    × (bit_distance (base.view base.canonical)
          (base.view (pvc1.bound_output faulted base.message_length))
        ≡ ok d)

-- With the localization, its candidates are the bits at distance one; without it nothing is localized.
abbrev pub HasLocalized : Bool → DistanceStats → StateLocalization → List ℕ → Type 0
HasLocalized true stats localization seen =
    IsLocalized stats localization (length seen) (at_one seen)
HasLocalized false stats localization seen = localization ≡ no_localization

-- The first `n` bits are faulted once each, with these distances, which the statistics summarize.
pub record IsCounted (pvc1 : Pvc1) (base : Baseline) (localize : Bool) (stats : DistanceStats)
    (localization : StateLocalization) (n : ℕ) (seen : List ℕ) : Type 0 where
  pub measured : IsMeasured (HasDistance pvc1 base) n stats seen
  pub localized : HasLocalized localize stats localization seen

localize_next :
    (localize : Bool) (stats : DistanceStats) (localization : StateLocalization) (d : ℕ)
    (seen : List ℕ) (canonical faulted : Bytes)
    → HasLocalized localize stats localization seen
    → length seen < c1_state_bits
    → AllBytes canonical
    → AllBytes faulted
    → bit_distance canonical faulted ≡ ok d
    → (next : StateLocalization) × ((if localize
          then localize_state_fault localization (length seen) d canonical faulted
          else ok localization)
        ≡ ok next)
      × HasLocalized localize (observe stats d) next (d ∷ seen)
localize_next true stats localization d seen canonical faulted old h hc hf e =
    let (next, runs, counted) =
      localize_state_fault-IsLocalized stats localization (length seen) (at_one seen) old
        (omega arith) (length seen) d canonical faulted h hc hf e in
    (
      next,
      runs,
      subst (λ k. IsLocalized (observe stats d) next k (at_one (d ∷ seen))) (omega arith) counted,
    )
localize_next false stats localization d seen canonical faulted old h hc hf e =
    (localization, refl, old)

module _ (pvc1 : Pvc1) (documented : DocumentedState pvc1) (base : Baseline) (width : ℕ)
    (fits : IsBaseline pvc1 base width) (narrow : width ≤ 32) where
  pub fault_state_bits-IsCounted :
      (localize : Bool) (count bit : ℕ) (stats : DistanceStats) (localization : StateLocalization)
      (seen : List ℕ)
      → bit + count ≡ c1_state_bits
      → IsCounted pvc1 base localize stats localization bit seen
      → (last : DistanceStats) × (found : StateLocalization) × (all : List ℕ) × (fault_state_bits
            pvc1 base localize count bit stats localization
          ≡ ok (last, found))
        × IsCounted pvc1 base localize last found c1_state_bits all
  unfolding fault_state_bits
  fault_state_bits-IsCounted localize zero bit stats localization seen inside old = (
    stats,
    localization,
    seen,
    refl,
    subst (λ k. IsCounted pvc1 base localize stats localization k seen) (omega (arith, inside)) old,
  )
  fault_state_bits-IsCounted localize (suc count) bit stats localization seen inside old =
      let (faulted, flips, far, back, size) =
        flip_c1_state_bit_once pvc1 documented base.state bit fits.cells (omega arith) in
      let canonical = base.view base.canonical in
      let output = base.view (pvc1.bound_output faulted base.message_length) in
      let same : canonical ≡ base.view (pvc1.bound_output base.state base.message_length) =
        ap base.view fits.canonical in
      let d = sum_distance canonical output in
      let wide : length canonical ≡ width =
        ap length same ∙ fits.view_length base.state base.message_length in
      let measured : bit_distance canonical output ≡ ok d =
        unfold bit_distance in ground (arith, wide, fits.view_length faulted base.message_length) in
      let at : length seen ≡ bit = old.measured.size in
      let (next, localized, counted) =
        localize_next localize stats localization d seen canonical output old.localized
          (omega (arith, at, inside))
          (subst AllBytes (sym same) (fits.view_bytes base.state base.message_length))
          (fits.view_bytes faulted base.message_length) measured in
      let here : (if localize
            then localize_state_fault localization bit d canonical output
            else ok localization)
          ≡ ok next =
        subst
          (λ (k : ℕ).
            (if localize
              then localize_state_fault localization k d canonical output
              else ok localization)
            ≡ ok next)
          at localized in
      let (last, found, all, rest, done) =
        fault_state_bits-IsCounted localize count (suc bit) (observe stats d) next (d ∷ seen)
          (omega arith)
          (record {
            measured =
                observe-IsMeasured (HasDistance pvc1 base) bit stats seen d old.measured
                  (faulted, flips, measured)
                  (omega (arith, sum_distance-le canonical output, wide, narrow))
                  (omega (arith, inside));
            localized = counted;
          }) in
      (last, found, all, rw (flips, measured, here) rest, done)

pub no_faults :
    (pvc1 : Pvc1) (base : Baseline) (localize : Bool)
    → IsCounted pvc1 base localize no_distances no_localization 0 []
no_faults pvc1 base true = record {
  measured = none-IsMeasured (HasDistance pvc1 base);
  localized = record {
    attempts = refl;
    unchanged_le = omega arith;
    one_bit_le = omega arith;
    regions = refl;
    unchanged_sum = refl;
    candidates = refl;
    positions = refl;
  };
}
no_faults pvc1 base false = record {
  measured = none-IsMeasured (HasDistance pvc1 base);
  localized = refl;
}

-- The stream's baseline, once its check has passed.
abbrev pub stream_base : Pvc1 → Cipher → CampaignCase → A1TagSize → Baseline
stream_base pvc1 cipher c size =
    let frame = cipher.frame_stream_block c.nonce 0 size in
    record {
      state = pvc1.evaluate c.keys.encryption_key frame;
      message_length = length frame;
      canonical = cipher.keyed_output c.keys.encryption_key frame;
      view = λ output. output;
    }

pub AllBytes-take : (n : ℕ) (xs : Bytes) → AllBytes xs → AllBytes (take n xs)
AllBytes-take zero xs h = tt
AllBytes-take (suc n) [] h = tt
AllBytes-take (suc n) (x ∷ xs) h = (h.0, AllBytes-take n xs h.1)

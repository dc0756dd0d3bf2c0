-- ===== src/Fault/Campaigns/Diagnose/Recorded.antt =====
-- The loop of the diagnosis over the bits of the state, and the records that it makes.
use perfectvaluecubesymmetri.Base.{
  ℕ, ◌≤◌, ◌≡◌, ◌≢◌, List, [], ◌∷◌, ◌==◌, if◌then◌else◌, length, take, ok, map,
}
use perfectvaluecubesymmetri.Fault.Bits.{bit_distance}
use perfectvaluecubesymmetri.Fault.Campaigns.{Baseline}
use perfectvaluecubesymmetri.Fault.Campaigns.Counted.{HasDistance}
use perfectvaluecubesymmetri.Fault.Campaigns.Diagnose.{Diagnosed, Aggregates}
use perfectvaluecubesymmetri.Fault.Campaigns.Diagnose.Checked.{IsRecorded}
use perfectvaluecubesymmetri.Fault.Diagnosis.{DiagnosticRecord, DiagnosticAggregate, diagnose}
use perfectvaluecubesymmetri.Fault.State.{WorkingState, Pvc1, flip_c1_state_bit}
use perfectvaluecubesymmetri.Fault.State.Trace.{FinalizationTrace, trace_finalization}
use perfectvaluecubesymmetri.Fault.Statistics.Measured.{AllMeasured}

-- The canonical output and the part of it that is compared.
abbrev pub tag_base : Diagnosed → Baseline
tag_base d = record {
  state = d.state;
  message_length = d.message_length;
  canonical = d.canonical;
  view = take d.tag_bytes;
}

-- The faults at one distance, the latest first.
abbrev pub at_distance : ℕ → List ℕ → List ℕ
at_distance k [] = []
at_distance k (d ∷ seen) = if d == k then length seen ∷ at_distance k seen else at_distance k seen

abbrev pub AllRecorded : Pvc1 → Diagnosed → List DiagnosticRecord → Type 0
AllRecorded pvc1 d [] = Unit
AllRecorded pvc1 d (r ∷ records) = IsRecorded pvc1 d r × AllRecorded pvc1 d records

abbrev pub state_bits : List DiagnosticRecord → List ℕ
state_bits records = map (λ (r : DiagnosticRecord). r.state_bit) records

-- The aggregate is that of the records of the faults at one distance, each of them recorded once.
pub record IsAggregate (pvc1 : Pvc1) (d : Diagnosed) (k : ℕ) (distances : List ℕ)
    (aggregate : DiagnosticAggregate) : Type 0 where
  pub records : List DiagnosticRecord
  pub all : AllRecorded pvc1 d records
  pub bits : state_bits records ≡ at_distance k distances
  pub counted : aggregate ≡ diagnose d.tag_bytes records

-- The first `n` bits are diagnosed.
pub record IsChecked (pvc1 : Pvc1) (d : Diagnosed) (n : ℕ) (counts : Aggregates)
    (distances : List ℕ) : Type 0 where
  pub each : AllMeasured (HasDistance pvc1 (tag_base d)) n distances
  pub size : length distances ≡ n
  pub entries : counts.entry_checks ≡ n
  pub silent : IsAggregate pvc1 d 0 distances counts.silent
  pub one_bit : IsAggregate pvc1 d 1 distances counts.one_bit

-- A bit whose fault is selected and whose trace does not agree with the finalizer.
pub record IsMismatch (pvc1 : Pvc1) (d : Diagnosed) (bit : ℕ) : Type 0 where
  pub faulted : WorkingState
  pub trace : FinalizationTrace
  pub distance : ℕ
  pub flips : flip_c1_state_bit pvc1 d.state bit ≡ ok faulted
  pub prefix :
      bit_distance
        (take d.tag_bytes d.canonical)
        (take d.tag_bytes (pvc1.bound_output faulted d.message_length))
      ≡ ok distance
  pub selected : distance ≤ 1
  pub runs : trace_finalization pvc1 faulted d.message_length ≡ ok trace
  pub differs : take 32 trace.output ≢ pvc1.bound_output faulted d.message_length

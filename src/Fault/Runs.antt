-- ===== src/Fault/Runs.antt =====
-- `main` of analysis/fault_injection_campaign.cpp: the modes and the campaigns that each of them runs.
use perfectvaluecubesymmetri.Base.{
  ℕ, ◌+◌, ◌≤◌, ◌≡◌, arith, length, Bool, true, false, ◌||◌, List, [], ◌∷◌, if◌then◌else◌,
  same_bytes, Text, codes, Result, ok, err, ◌>>=◌, runtime_error,
}
use perfectvaluecubesymmetri.Fault.Campaigns.{
  Frames, Replication, test_c1_stream_state_faults, test_c1_mac_state_faults,
  test_c1_mac_state_replication,
}
use perfectvaluecubesymmetri.Fault.Campaigns.Diagnose.{Aggregates, test_finalization_diagnosis}
use perfectvaluecubesymmetri.Fault.Cases.{make_cases}
use perfectvaluecubesymmetri.Fault.Families.{Overlap, test_fault_dependency_families}
use perfectvaluecubesymmetri.Fault.Localization.{StateLocalization}
use perfectvaluecubesymmetri.Fault.Released.{
  ReleaseCounts, test_authentication_branch_skip, test_post_authentication_faults,
}
use perfectvaluecubesymmetri.Fault.State.{Pvc1}
use perfectvaluecubesymmetri.Fault.Statistics.{DistanceStats}
use perfectvaluecubesymmetri.Fault.Stream.{Cipher}
use perfectvaluecubesymmetri.Fault.TagFaults.{CampaignCase, TagCounts, test_tag_and_mac_result_bits}
use perfectvaluecubesymmetri.Fault.TagFaults.Lengths.{LengthCounts, test_tag_length_faults}
use perfectvaluecubesymmetri.Fault.TagFaults.Skips.{BypassCounts, test_comparison_skip}
use perfectvaluecubesymmetri.Symmetric.{Aead}

-- The four flags of `main`.
pub record Mode : Type 0 where
  pub localize : Bool
  pub replicate : Bool
  pub diagnose : Bool
  pub print_map : Bool

abbrev pub no_mode : Mode
no_mode = record { localize = false; replicate = false; diagnose = false; print_map = false }

-- The arguments behind the name of the program.
unfoldable pub mode_of : List Text → Result Mode
mode_of [] = ok no_mode
mode_of (mode ∷ []) =
    if same_bytes mode (codes "--localize")
    then ok (record no_mode { localize = true })
    else if same_bytes mode (codes "--replicate")
    then ok (record no_mode { replicate = true })
    else if same_bytes mode (codes "--diagnose")
    then ok (record no_mode { diagnose = true })
    else if same_bytes mode (codes "--map")
    then ok (record no_mode { print_map = true })
    else err (runtime_error "unknown fault campaign mode")
mode_of (_ ∷ _ ∷ _) = err (
    runtime_error
      "usage: pvc-rotsymenc1-fault-injection-campaign [--localize|--replicate|--diagnose|--map]")

-- The results of the campaigns of the plain run, in their order.
pub record PlainReport : Type 0 where
  pub tags : TagCounts
  pub skips : BypassCounts
  pub lengths : LengthCounts × BypassCounts
  pub releases : ReleaseCounts
  pub post_authentication : DistanceStats × DistanceStats
  pub stream_state : DistanceStats × StateLocalization
  pub mac_states : List (DistanceStats × StateLocalization)

-- What a run has to print.
pub data Report : Type 0 where
  plain : PlainReport → Report
  replicated : List Replication → Report
  diagnosed : List Aggregates → List ((Overlap × Overlap) × (Overlap × Overlap)) → Report
  mapped : List Aggregates → Report

-- `cases.back()`, of an array that is not empty.
abbrev pub last_case : CampaignCase → List CampaignCase → CampaignCase
last_case c [] = c
last_case c (next ∷ cases) = last_case next cases

pub run_cases :
    Aead → Pvc1 → Cipher → Frames → Bool → List CampaignCase → CampaignCase → Result PlainReport
run_cases a1 pvc1 cipher frames localize cases back = do
  tags ← test_tag_and_mac_result_bits a1 cases
  skips ← test_comparison_skip a1 cases
  lengths ← test_tag_length_faults a1 cases
  releases ← test_authentication_branch_skip a1 cipher cases
  post_authentication ← test_post_authentication_faults a1 cipher back
  stream_state ← test_c1_stream_state_faults pvc1 cipher back localize
  mac_states ← test_c1_mac_state_faults pvc1 cipher frames cases localize
  ok (record {
    tags = tags;
    skips = skips;
    lengths = lengths;
    releases = releases;
    post_authentication = post_authentication;
    stream_state = stream_state;
    mac_states = mac_states;
  })

-- The plain run, with or without the localization. The cases are always three, so that the first branch is
-- never taken.
pub run_plain : Aead → Pvc1 → Cipher → Frames → Bool → Result PlainReport
unfolding run_cases
run_plain a1 pvc1 cipher frames localize = do
  cases ← make_cases a1
  (elim cases [
    | [] ↦ err (runtime_error "no cases")
    | c ∷ more ↦ run_cases a1 pvc1 cipher frames localize (c ∷ more) (last_case c more)
  ])

-- The body of `main`, up to its printing.
pub run : Aead → Pvc1 → Cipher → Frames → List Text → Result Report
unfolding mode_of run_plain
run a1 pvc1 cipher frames arguments = do
  mode ← mode_of arguments
  (if mode.replicate
      then (test_c1_mac_state_replication a1 pvc1 cipher frames >>= λ found. ok (replicated found))
      else if mode.diagnose || mode.print_map
      then (test_finalization_diagnosis a1 pvc1 cipher frames >>= λ found.
          if mode.print_map
          then ok (mapped found)
          else (test_fault_dependency_families a1 pvc1 cipher frames >>= λ families.
              ok (diagnosed found families)))
      else (run_plain a1 pvc1 cipher frames mode.localize >>= λ report. ok (plain report)))

-- The names of the modes.
abbrev pub mode_names : List Text
mode_names = codes "--localize" ∷ codes "--replicate" ∷ codes "--diagnose" ∷ codes "--map" ∷ []

abbrev flag : Bool → ℕ
flag b = if b then 1 else 0

-- The number of flags that are set.
abbrev pub flags : Mode → ℕ
flags mode = flag mode.localize + flag mode.replicate + flag mode.diagnose + flag mode.print_map

-- No argument sets no flag, one argument sets one flag or is refused, and more arguments are refused.
pub mode_of-flags :
    (arguments : List Text) (mode : Mode)
    → mode_of arguments ≡ ok mode
    → (flags mode ≡ length arguments) × (length arguments ≤ 1)
unfolding mode_of
mode_of-flags [] mode e = ground (arith, e)
mode_of-flags (a ∷ []) mode e = ground (arith, e)
mode_of-flags (a ∷ b ∷ more) mode e = cc e

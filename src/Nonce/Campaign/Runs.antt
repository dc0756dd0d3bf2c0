-- ===== src/Nonce/Campaign/Runs.antt =====
-- `test_restart_and_scope`, `test_crash_points` and `test_snapshot_rollback` of
-- analysis/nonce_misuse_campaign.cpp, up to their printing. Paths are below the campaign's directory.
pub mod Passed
pub mod Rollback
use perfectvaluecubesymmetri.Base.{
  ℕ, zero, suc, ◌+◌, Bool, true, false, List, [], ◌∷◌, ◌++◌, ◌==◌, ◌||◌, if◌then◌else◌, same_bytes,
  Bytes, length, runtime_error, Text, codes,
}
use perfectvaluecubesymmetri.Nonce.Campaign.{nonce_from_counter, key_with_offset, scope_with_offset}
use perfectvaluecubesymmetri.Nonce.Campaign.World.{
  Campaign, Kernels, allocate_at, expect_nonce, expect_nonces, is_refused, Process, crash_child,
  copy_file,
}
use perfectvaluecubesymmetri.Nonce.Detector.{
  NonceReuseDetector, NonceObservation, fresh, reused, observe, empty,
}
use perfectvaluecubesymmetri.Nonce.Store.Effects.{
  PersistencePoint, after_lock, after_temporary_sync, after_replace, after_directory_sync, ◌>>=◌,
  ◌>>◌, pure, check,
}
use perfectvaluecubesymmetri.Nonce.Store.Crash.{point_number, is_replaced}
use perfectvaluecubesymmetri.Nonce.Store.Healthy.{null_hook}

abbrev pub restart_path : Text
restart_path = codes "restart.state"

pub test_restart_and_scope : Kernels → Campaign (Unit {0})
test_restart_and_scope kernels = do
  let scope = scope_with_offset 32
  expect_nonces kernels restart_path scope 256 0 "persistent restart sequence mismatch"
  refused ← is_refused kernels restart_path (scope_with_offset 64)
  check refused (runtime_error "persistent counter accepted a different scope")
  expect_nonce kernels restart_path scope 256 "scope rejection changed persistent counter state"

-- `std::to_string` of a number with one digit.
abbrev pub digit : ℕ → Text
digit n = (48 + n) ∷ []

abbrev pub crash_path : PersistencePoint → Text
crash_path point = codes "crash-" ++ (digit (point_number point) ++ codes ".state")

-- One pass of the loop of `test_crash_points`: whether the state was replaced.
pub crash_at : Kernels → Process → PersistencePoint → Campaign Bool
crash_at kernels process point = do
  let path = crash_path point
  let scope = scope_with_offset (80 + point_number point)
  expect_nonce kernels path scope 0 "crash test initial allocation mismatch"
  check process.forked (runtime_error "fork failed in crash test")
  status ← crash_child kernels point path scope
  check process.waited (runtime_error "waitpid failed")
  check process.exited_normally (runtime_error "child did not exit normally")
  check (status == 80 + point_number point) (runtime_error "child exit status mismatch")
  resumed ← allocate_at kernels null_hook path scope
  let replaced = is_replaced point
  check (same_bytes resumed (nonce_from_counter (if replaced then 2 else 1)))
      (runtime_error "post-crash allocation did not match persistence point")
  pure replaced

-- `preserved` and `skipped` after the loop over the points.
pub crash_at_each :
    Kernels → (PersistencePoint → Process) → List PersistencePoint → ℕ → ℕ → Campaign (ℕ × ℕ)
unfolding crash_at
crash_at_each kernels processes [] preserved skipped = pure (preserved, skipped)
crash_at_each kernels processes (point ∷ points) preserved skipped = do
  replaced ← crash_at kernels (processes point) point
  crash_at_each kernels processes points (if replaced then preserved else preserved + 1)
      (if replaced then skipped + 1 else skipped)

pub test_crash_points : Kernels → (PersistencePoint → Process) → Campaign (ℕ × ℕ)
unfolding crash_at_each
test_crash_points kernels processes =
    crash_at_each kernels processes
      (after_lock ∷ after_temporary_sync ∷ after_replace ∷ after_directory_sync ∷ []) 0 0

abbrev pub rollback_path : Text
rollback_path = codes "rollback.state"

abbrev pub snapshot_path : Text
snapshot_path = codes "rollback.snapshot"

-- The loop that fills `first_branch`.
pub take_nonces : Kernels → Text → Bytes → ℕ → Campaign (List Bytes)
take_nonces kernels path scope zero = pure []
take_nonces kernels path scope (suc count) = do
  nonce ← allocate_at kernels null_hook path scope
  nonces ← take_nonces kernels path scope count
  pure (nonce ∷ nonces)

abbrev pub is_fresh : NonceObservation → Bool
is_fresh fresh = true
is_fresh reused = false

-- The loop that shows the first branch to the detector.
pub observe_branch : Bytes → List Bytes → NonceReuseDetector → Campaign NonceReuseDetector
observe_branch key [] detector = pure detector
observe_branch key (nonce ∷ nonces) detector = do
  let (observation, next) = observe key nonce detector
  check (is_fresh observation) (runtime_error "rollback detector initial observation mismatch")
  observe_branch key nonces next

-- The loop that replays the first branch: `repeated` at its end.
pub replay : Kernels → Text → Bytes → Bytes → List Bytes → NonceReuseDetector → ℕ → Campaign ℕ
replay kernels path scope key [] detector repeated = pure repeated
replay kernels path scope key (expected ∷ branch) detector repeated = do
  replayed ← allocate_at kernels null_hook path scope
  check (same_bytes replayed expected) (runtime_error "snapshot rollback did not repeat allocation")
  let (observation, next) = observe key replayed detector
  replay kernels path scope key branch next
      (if is_fresh observation then repeated else repeated + 1)

-- The second part of the test, once the copy is put back.
pub replay_branch : Kernels → Bytes → List Bytes → Campaign ℕ
unfolding observe_branch replay
replay_branch kernels scope first_branch = do
  let key = key_with_offset 51
  detector ← observe_branch key first_branch empty
  repeated ← replay kernels rollback_path scope key first_branch detector 0
  check (repeated == length first_branch) (runtime_error "snapshot rollback reuse was not detected")
  pure repeated

pub test_snapshot_rollback : Kernels → Campaign ℕ
unfolding take_nonces replay_branch
test_snapshot_rollback kernels = do
  let scope = scope_with_offset 160
  expect_nonces kernels rollback_path scope 8 0 "rollback prefix allocation mismatch"
  copy_file false rollback_path snapshot_path
  first_branch ← take_nonces kernels rollback_path scope 8
  copy_file true snapshot_path rollback_path
  replay_branch kernels scope first_branch

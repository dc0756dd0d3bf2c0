-- ===== src/Nonce/Campaign/Tests.antt =====
-- The theorems on the campaign's tests over a directory without files.
use perfectvaluecubesymmetri.Base.{
  ℕ, ◌+◌, ◌%◌, ◌≤◌, ◌↔◌, length, ◌≡◌, refl, true, none, [], ◌∷◌, ok, ◌==◌,
}
use perfectvaluecubesymmetri.Nonce.Campaign.{nonce_from_counter, write_counter}
use perfectvaluecubesymmetri.Nonce.Campaign.Collisions.{
  count_collisions, count_collisions-counts, IsCollisionFree, sampled,
}
use perfectvaluecubesymmetri.Nonce.Campaign.Misuse.{
  test_reuse_detector_and_xor, test_reuse_detector_and_xor_passes,
}
use perfectvaluecubesymmetri.Nonce.Campaign.Runs.{
  test_restart_and_scope, test_crash_points, test_snapshot_rollback,
}
use perfectvaluecubesymmetri.Nonce.Campaign.Runs.Passed.{
  test_restart_and_scope_passes, test_crash_points_passes,
}
use perfectvaluecubesymmetri.Nonce.Campaign.Runs.Rollback.{test_snapshot_rollback_passes}
use perfectvaluecubesymmetri.Nonce.Campaign.World.{World, Kernels, Process}
use perfectvaluecubesymmetri.Nonce.Campaign.World.Steps.{AreHealthy}
use perfectvaluecubesymmetri.Nonce.Store.Effects.{Kernel, returned}
use perfectvaluecubesymmetri.Symmetric.Toy.{toy, toy_a1, toy-Documented}

abbrev kernel : Kernel
kernel = record {
  lock_opens = true;
  lock_taken = true;
  state_opens = true;
  state_stats = true;
  reads = [];
  temporary_opens = true;
  permissions_set = true;
  writes = [];
  temporary_synced = true;
  replaced = true;
  directory_opens = true;
  directory_synced = true;
}

abbrev kernels : Kernels
kernels n = kernel

kernels-AreHealthy : AreHealthy kernels
kernels-AreHealthy n = record {
  lock_opens = refl;
  lock_taken = refl;
  state_opens = refl;
  state_stats = refl;
  reads = tt;
  temporary_opens = refl;
  permissions_set = refl;
  writes = tt;
  temporary_synced = refl;
  replaced = refl;
  directory_opens = refl;
  directory_synced = refl;
}

abbrev blank : World
blank = record { files = λ path. record { state = none; temporary = none }; calls = 0 }

nonce_bytes :
    nonce_from_counter 258
    ≡ 0 ∷ 0 ∷ 0 ∷ 0 ∷ 0 ∷ 0 ∷ 0 ∷ 0 ∷ 0 ∷ 0 ∷ 0 ∷ 0 ∷ 0 ∷ 0 ∷ 0 ∷ 0 ∷ 0 ∷ 0 ∷ 0 ∷ 0 ∷ 0 ∷ 0 ∷ 1 ∷ 2
      ∷ []
unfolding nonce_from_counter write_counter
nonce_bytes = refl

test_restart_and_scope_passes_example : (test_restart_and_scope kernels blank).0 ≡ returned tt
test_restart_and_scope_passes_example =
    test_restart_and_scope_passes kernels blank kernels-AreHealthy refl

abbrev process : Process
process = record { forked = true; waited = true; exited_normally = true }

test_crash_points_passes_example :
    (test_crash_points kernels (λ point. process) blank).0 ≡ returned (2, 2)
test_crash_points_passes_example =
    test_crash_points_passes kernels (λ point. process) blank kernels-AreHealthy
      (λ point. record { forked = refl; waited = refl; exited_normally = refl }) (λ point. refl)

test_snapshot_rollback_passes_example : (test_snapshot_rollback kernels blank).0 ≡ returned 8
test_snapshot_rollback_passes_example =
    test_snapshot_rollback_passes kernels blank kernels-AreHealthy refl refl

test_reuse_detector_and_xor_passes_example : test_reuse_detector_and_xor toy_a1 ≡ ok tt
test_reuse_detector_and_xor_passes_example =
    test_reuse_detector_and_xor_passes toy_a1 toy toy-Documented

-- Three samples that alternate between two values.
abbrev alternating : ℕ → ℕ × ℕ
alternating state = (state % 2, state + 1)

count_collisions-counts_example :
    let last = (count_collisions ◌==◌ alternating 3 ([], 0) 0).0 in
    (length last.0 + last.1 ≡ 3)
    × (0 ≤ last.1)
    × ((last.1 ≡ 0) ↔ IsCollisionFree ◌==◌ [] (sampled alternating 3 0))
count_collisions-counts_example = count_collisions-counts ◌==◌ alternating 3 ([], 0) 0

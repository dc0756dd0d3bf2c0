-- ===== src/Nonce/Campaign/Runs/Passed.antt =====
-- `test_restart_and_scope` and `test_crash_points` over files that are not there yet.
use perfectvaluecubesymmetri.Base.{
  true, ℕ, zero, suc, ◌+◌, ◌≡◌, ◌≢◌, refl, ap, ◌∙◌, false, none, if◌then◌else◌, arith, Bytes, Text,
  same_bytes, same_bytes_refl, AllBytes, List, [], ◌∷◌, get_or,
}
use perfectvaluecubesymmetri.Nonce.Campaign.{nonce_from_counter, scope_with_offset, ascending}
use perfectvaluecubesymmetri.Nonce.Campaign.Passes.{Returns, pure-Returns, returned_value}
use perfectvaluecubesymmetri.Nonce.Campaign.Runs.{
  restart_path, test_restart_and_scope, crash_path, crash_at, crash_at_each, test_crash_points,
}
use perfectvaluecubesymmetri.Nonce.Campaign.World.{Process, World, Kernels}
use perfectvaluecubesymmetri.Nonce.Campaign.World.Interruptions.{
  is_refused-Returns, crash_child-Returns,
}
use perfectvaluecubesymmetri.Nonce.Campaign.World.Steps.{
  Ready, Elsewhere, AreHealthy, fresh-Ready, allocate_at-Returns, expect_nonce-Returns,
  expect_nonces-Returns,
}
use perfectvaluecubesymmetri.Nonce.Store.Crash.{point_number, is_replaced}
use perfectvaluecubesymmetri.Nonce.Store.Effects.{
  Files, PersistencePoint, after_lock, after_temporary_sync, after_replace, after_directory_sync,
  returned,
}

AllBytes-ascending : (count offset index : ℕ) → AllBytes (ascending count offset index)
unfolding ascending
AllBytes-ascending zero offset index = tt
AllBytes-ascending (suc count) offset index =
    (omega arith, AllBytes-ascending count offset (suc index))

-- A path without a file is ready for the scope of any offset.
pub scope-Ready :
    (path : Text) (offset : ℕ) (files : Text → Files)
    → (files path).state ≡ none
    → Ready path (scope_with_offset offset) 0 files
unfolding scope_with_offset
scope-Ready path offset files missing =
    fresh-Ready path (scope_with_offset offset) files (unfold ascending in refl)
      (AllBytes-ascending 16 offset 0) missing

other_scope : scope_with_offset 32 ≢ scope_with_offset 64
unfolding scope_with_offset ascending
other_scope e = omega (arith, ap (λ (s : Bytes). get_or s 0 0) e)

-- The test passes: 256 allocations count up from zero, another scope is refused, and the next
-- allocation is the one that would have followed. No file is at the path, and the kernel disturbs no
-- call.
pub test_restart_and_scope_passes :
    (kernels : Kernels) (world : World)
    → AreHealthy kernels
    → (world.files restart_path).state ≡ none
    → (test_restart_and_scope kernels world).0 ≡ returned tt
unfolding test_restart_and_scope
test_restart_and_scope_passes kernels world healthy missing =
    let path = restart_path in
    let scope = scope_with_offset 32 in
    let h =
      expect_nonces-Returns kernels healthy path scope 256 0 "persistent restart sequence mismatch"
        world (omega arith) (scope-Ready path 32 world.files missing) in
    let g =
      is_refused-Returns kernels healthy path scope (scope_with_offset 64) 256 h.after other_scope
        (omega arith) h.holds.0 in
    let f =
      expect_nonce-Returns kernels healthy path scope 256
        "scope rejection changed persistent counter state" g.after (omega arith) g.holds.1 in
    ground (arith, h.ends, g.ends, g.holds.0, f.ends)

-- The system started the child, and the wait for it returned an exit.
pub record HasRun (process : Process) : Type 0 where
  pub forked : process.forked ≡ true
  pub waited : process.waited ≡ true
  pub exited_normally : process.exited_normally ≡ true

-- One point: whether the state was replaced, and only the files of that point are touched.
crash_at-Returns :
    (kernels : Kernels) (process : Process) (point : PersistencePoint) (world : World)
    → AreHealthy kernels
    → HasRun process
    → (world.files (crash_path point)).state ≡ none
    → Returns
        (λ replaced world'.
          (replaced ≡ is_replaced point) × Elsewhere (crash_path point) world.files world'.files)
        (crash_at kernels process point world)
unfolding crash_at
crash_at-Returns kernels process point world healthy ran missing =
    let path = crash_path point in
    let scope = scope_with_offset (80 + point_number point) in
    let after = if is_replaced point then 2 else 1 in
    let h =
      expect_nonce-Returns kernels healthy path scope 0 "crash test initial allocation mismatch"
        world (omega arith) (scope-Ready path (80 + point_number point) world.files missing) in
    let g =
      crash_child-Returns kernels healthy point path scope 1 h.after (omega arith) h.holds.0 in
    let f = allocate_at-Returns kernels healthy path scope after g.after (ground arith) g.holds.1 in
    record {
      result = is_replaced point;
      after = f.after;
      ends = ground (
        arith,
        h.ends,
        g.ends,
        g.holds.0,
        ran.forked,
        ran.waited,
        ran.exited_normally,
        f.ends,
        f.holds.0,
        same_bytes_refl (nonce_from_counter after),
      );
      holds = (
        refl,
        λ other differs.
            f.holds.2 other differs ∙ g.holds.2 other differs ∙ h.holds.1 other differs,
      );
    }

-- No point of the list has a file yet.
abbrev AllMissing : List PersistencePoint → (Text → Files) → Type 0
AllMissing [] files = Unit
AllMissing (point ∷ points) files =
    ((files (crash_path point)).state ≡ none) × AllMissing points files

-- The paths of the list are all different.
abbrev Avoids : PersistencePoint → List PersistencePoint → Type 0
Avoids point [] = Unit
Avoids point (other ∷ points) =
    (same_bytes (crash_path other) (crash_path point) ≡ false) × Avoids point points

abbrev HasDistinctPaths : List PersistencePoint → Type 0
HasDistinctPaths [] = Unit
HasDistinctPaths (point ∷ points) = Avoids point points × HasDistinctPaths points

AllMissing-Elsewhere :
    (point : PersistencePoint) (points : List PersistencePoint) (before after : Text → Files)
    → Avoids point points
    → Elsewhere (crash_path point) before after
    → AllMissing points before
    → AllMissing points after
AllMissing-Elsewhere point [] before after avoids elsewhere missing = tt
AllMissing-Elsewhere point (other ∷ points) before after avoids elsewhere missing = (
  ap (λ (f : Files). f.state) (elsewhere (crash_path other) avoids.0) ∙ missing.0,
  AllMissing-Elsewhere point points before after avoids.1 elsewhere missing.1,
)

-- The counts of the loop, from those before it.
abbrev counted : List PersistencePoint → ℕ → ℕ → ℕ × ℕ
counted [] preserved skipped = (preserved, skipped)
counted (point ∷ points) preserved skipped =
    counted points (if is_replaced point then preserved else preserved + 1)
      (if is_replaced point then skipped + 1 else skipped)

crash_at_each-Returns :
    (kernels : Kernels) (processes : PersistencePoint → Process) (points : List PersistencePoint)
    (preserved skipped : ℕ) (world : World)
    → AreHealthy kernels
    → ((point : PersistencePoint) → HasRun (processes point))
    → HasDistinctPaths points
    → AllMissing points world.files
    → Returns
        (λ counts world'. counts ≡ counted points preserved skipped)
        (crash_at_each kernels processes points preserved skipped world)
unfolding crash_at_each
crash_at_each-Returns kernels processes [] preserved skipped world healthy ran distinct missing =
    pure-Returns (preserved, skipped) world refl
crash_at_each-Returns kernels processes (point ∷ points) preserved skipped world healthy ran
      distinct missing =
    let h = crash_at-Returns kernels (processes point) point world healthy (ran point) missing.0 in
    let rest =
      crash_at_each-Returns kernels processes points
        (if is_replaced point then preserved else preserved + 1)
        (if is_replaced point then skipped + 1 else skipped) h.after healthy ran distinct.1
        (AllMissing-Elsewhere point points world.files h.after.files distinct.0 h.holds.1
          missing.1) in
    record {
      result = rest.result;
      after = rest.after;
      ends = ground (arith, h.ends, h.holds.0, rest.ends);
      holds = rest.holds;
    }

-- The test passes: a crash before the replacement leaves the next nonce to the next call, and a crash
-- after it skips one nonce; each happens at two of the four points. No file is at the four paths, the
-- kernel disturbs no call, and each child is started, waited for and ends by an exit.
pub test_crash_points_passes :
    (kernels : Kernels) (processes : PersistencePoint → Process) (world : World)
    → AreHealthy kernels
    → ((point : PersistencePoint) → HasRun (processes point))
    → ((point : PersistencePoint) → (world.files (crash_path point)).state ≡ none)
    → (test_crash_points kernels processes world).0 ≡ returned (2, 2)
unfolding test_crash_points
test_crash_points_passes kernels processes world healthy ran missing =
    let points = after_lock ∷ after_temporary_sync ∷ after_replace ∷ after_directory_sync ∷ [] in
    returned_value (
      crash_at_each-Returns kernels processes points 0 0 world healthy ran
        ((refl, (refl, (refl, tt))), ((refl, (refl, tt)), ((refl, tt), (tt, tt))))
        (
          missing after_lock,
          (
            missing after_temporary_sync,
            (missing after_replace, (missing after_directory_sync, tt)),
          ),
        ))

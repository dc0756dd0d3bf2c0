-- ===== src/Nonce/Campaign/Runs/Rollback.antt =====
-- `test_snapshot_rollback` over files that are not there yet.
use perfectvaluecubesymmetri.Base.{
  ℕ, zero, suc, ◌+◌, ◌≤◌, ◌^◌, ◌≡◌, refl, sym, ap, ◌∙◌, inl, inr, true, false, none, arith, Bytes,
  Text, same_bytes_refl, List, [], ◌∷◌, length,
}
use perfectvaluecubesymmetri.Nonce.Campaign.{
  nonce_from_counter, scope_with_offset, key_with_offset, ascending, write_counter,
}
use perfectvaluecubesymmetri.Nonce.Campaign.Passes.{Returns}
use perfectvaluecubesymmetri.Nonce.Campaign.Runs.{
  rollback_path, snapshot_path, take_nonces, observe_branch, replay, replay_branch,
  test_snapshot_rollback,
}
use perfectvaluecubesymmetri.Nonce.Campaign.Runs.Passed.{scope-Ready}
use perfectvaluecubesymmetri.Nonce.Campaign.World.{World, Kernels, expect_nonces, copy_file}
use perfectvaluecubesymmetri.Nonce.Campaign.World.Interruptions.{
  stored_image, Ready-same, copy_file-Returns,
}
use perfectvaluecubesymmetri.Nonce.Campaign.World.Steps.{
  Ready, Elsewhere, AreHealthy, allocate_at-Returns, expect_nonces-Returns,
}
use perfectvaluecubesymmetri.Nonce.Counter.{encode_state}
use perfectvaluecubesymmetri.Nonce.Detector.{
  NonceReuseDetector, contains, same_pair, observe, empty,
}
use perfectvaluecubesymmetri.Nonce.Store.Effects.{Files, returned}

-- Consecutive nonces.
abbrev counted_from : ℕ → ℕ → List Bytes
counted_from v zero = []
counted_from v (suc count) = nonce_from_counter v ∷ counted_from (v + 1) count

-- The detector has seen every nonce of the list under the key.
abbrev HasSeen : Bytes → List Bytes → NonceReuseDetector → Type 0
HasSeen key [] detector = Unit
HasSeen key (nonce ∷ nonces) detector =
    (contains (key, nonce) detector.seen ≡ true) × HasSeen key nonces detector

module _ (kernels : Kernels) (healthy : AreHealthy kernels) (path : Text) (scope : Bytes) where
  take_nonces-Returns :
      (count v : ℕ) (world : World)
      → v + count ≤ 2 ^ 64
      → Ready path scope v world.files
      → Returns
          (λ nonces world'.
            (nonces ≡ counted_from v count) × Elsewhere path world.files world'.files)
          (take_nonces kernels path scope count world)
  unfolding take_nonces
  take_nonces-Returns zero v world room ready = record {
    result = [];
    after = world;
    ends = refl;
    holds = (refl, λ other differs. refl);
  }
  take_nonces-Returns (suc count) v world room ready =
      let h = allocate_at-Returns kernels healthy path scope v world (omega arith) ready in
      let rest = take_nonces-Returns count (v + 1) h.after (omega arith) h.holds.1 in
      record {
        result = counted_from v (suc count);
        after = rest.after;
        ends = ground (arith, h.ends, h.holds.0, rest.ends, rest.holds.0);
        holds = (refl, λ other differs. rest.holds.1 other differs ∙ h.holds.2 other differs);
      }

  replay-Returns :
      (count v repeated : ℕ) (key : Bytes) (detector : NonceReuseDetector) (world : World)
      → v + count ≤ 2 ^ 64
      → Ready path scope v world.files
      → HasSeen key (counted_from v count) detector
      → Returns
          (λ last world'. last ≡ repeated + count)
          (replay kernels path scope key (counted_from v count) detector repeated world)
  unfolding replay observe
  replay-Returns zero v repeated key detector world room ready seen = record {
    result = repeated;
    after = world;
    ends = refl;
    holds = omega arith;
  }
  replay-Returns (suc count) v repeated key detector world room ready seen =
      let h = allocate_at-Returns kernels healthy path scope v world (omega arith) ready in
      let rest =
        replay-Returns count (v + 1) (repeated + 1) key detector h.after (omega arith) h.holds.1
          seen.1 in
      record {
        result = rest.result;
        after = rest.after;
        ends =
            ground
              (arith, h.ends, h.holds.0, same_bytes_refl (nonce_from_counter v), seen.0, rest.ends);
        holds = omega (arith, rest.holds);
      }

-- The detector takes eight different nonces, and has seen each of them afterwards.
observe_branch-run :
    (world : World)
    → Returns
        (λ detector world'.
          HasSeen (key_with_offset 51) (counted_from 8 8) detector × (world' ≡ world))
        (observe_branch (key_with_offset 51) (counted_from 8 8) empty world)
unfolding observe_branch observe contains same_pair nonce_from_counter write_counter key_with_offset
    ascending
observe_branch-run world = record {
  result = _;
  after = world;
  ends = refl;
  holds = ((refl, (refl, (refl, (refl, (refl, (refl, (refl, (refl, tt)))))))), refl);
}

replay_branch_ends :
    (kernels : Kernels) (scope : Bytes) (branch : List Bytes) (detector : NonceReuseDetector)
    (world last : World)
    → observe_branch (key_with_offset 51) branch empty world ≡ (returned detector, world)
    → replay kernels rollback_path scope (key_with_offset 51) branch detector 0 world
      ≡ (returned (length branch), last)
    → replay_branch kernels scope branch world ≡ (returned (length branch), last)
unfolding replay_branch
replay_branch_ends kernels scope branch detector world last seen replayed = ground arith

replay_branch-Returns :
    (kernels : Kernels) (scope : Bytes) (world : World)
    → AreHealthy kernels
    → Ready rollback_path scope 8 world.files
    → Returns
        (λ repeated world'. repeated ≡ 8)
        (replay_branch kernels scope (counted_from 8 8) world)
replay_branch-Returns kernels scope world healthy ready =
    let seen = observe_branch-run world in
    let last =
      replay-Returns kernels healthy rollback_path scope 8 8 0 (key_with_offset 51) seen.result
        world (omega arith) ready seen.holds.0 in
    record {
      result = 8;
      after = last.after;
      ends =
          replay_branch_ends kernels scope (counted_from 8 8) seen.result world last.after
            (seen.ends ∙ ap (λ (w : World). (returned seen.result, w)) seen.holds.1)
            (last.ends ∙ ap (λ (n : ℕ). (returned n, last.after)) last.holds);
      holds = refl;
    }

-- The statements of the test, one after another.
test_snapshot_rollback_ends :
    (kernels : Kernels) (world first saved branched restored last : World) (branch : List Bytes)
    (repeated : ℕ)
    → let scope = scope_with_offset 160 in
      expect_nonces kernels rollback_path scope 8 0 "rollback prefix allocation mismatch" world
        ≡ (returned tt, first)
      → copy_file false rollback_path snapshot_path first ≡ (returned tt, saved)
      → take_nonces kernels rollback_path (scope_with_offset 160) 8 saved
        ≡ (returned branch, branched)
      → copy_file true snapshot_path rollback_path branched ≡ (returned tt, restored)
      → replay_branch kernels (scope_with_offset 160) branch restored ≡ (returned repeated, last)
      → test_snapshot_rollback kernels world ≡ (returned repeated, last)
unfolding test_snapshot_rollback
test_snapshot_rollback_ends kernels world first saved branched restored last branch repeated a b c d
      e =
    ground arith

-- The test passes: after the copy is put back all eight nonces of the first branch are returned once
-- more, and the detector reports each of them. No file is at the two paths, and the kernel disturbs no
-- call.
pub test_snapshot_rollback_passes :
    (kernels : Kernels) (world : World)
    → AreHealthy kernels
    → (world.files rollback_path).state ≡ none
    → (world.files snapshot_path).state ≡ none
    → (test_snapshot_rollback kernels world).0 ≡ returned 8
test_snapshot_rollback_passes kernels world healthy missing no_snapshot =
    let path = rollback_path in
    let scope = scope_with_offset 160 in
    let first =
      expect_nonces-Returns kernels healthy path scope 8 0 "rollback prefix allocation mismatch"
        world (omega arith) (scope-Ready path 160 world.files missing) in
    let ready = first.holds.0 in
    let image = stored_image path scope 8 first.after.files ready (omega arith) in
    let saved =
      copy_file-Returns false path snapshot_path (encode_state ready.state) first.after image
        (inl (ap (λ (f : Files). f.state) (first.holds.1 snapshot_path refl) ∙ no_snapshot)) in
    let kept : (saved.after.files path).state ≡ (first.after.files path).state =
      ap (λ (f : Files). f.state) (saved.holds.1 path refl) in
    let branch =
      take_nonces-Returns kernels healthy path scope 8 8 saved.after (omega arith)
        (Ready-same path scope 8 first.after.files saved.after.files ready kept) in
    let restored =
      copy_file-Returns true snapshot_path path (encode_state ready.state) branch.after
        (ap (λ (f : Files). f.state) (branch.holds.1 snapshot_path refl) ∙ saved.holds.0)
        (inr refl) in
    let last = replay_branch-Returns kernels scope restored.after healthy (
      Ready-same path scope 8 first.after.files restored.after.files ready
        (restored.holds.0 ∙ sym image)) in
    ap (λ r. r.0)
      (test_snapshot_rollback_ends kernels world first.after saved.after branch.after restored.after
        last.after (counted_from 8 8) 8 first.ends saved.ends
        (branch.ends ∙ ap (λ (b : List Bytes). (returned b, branch.after)) branch.holds.0)
        restored.ends (last.ends ∙ ap (λ (n : ℕ). (returned n, last.after)) last.holds))

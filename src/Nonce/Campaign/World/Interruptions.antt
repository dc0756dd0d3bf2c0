-- ===== src/Nonce/Campaign/World/Interruptions.antt =====
-- A refused scope, a child process that ends in the hook, and a copied state file, on the campaign's files.
use perfectvaluecubesymmetri.Base.{
  ℕ, ◌+◌, ◌<◌, ◌^◌, ◌≡◌, ◌≢◌, refl, sym, ap, ◌∙◌, inl, inr, Bool, true, false, none, some,
  if◌then◌else◌, arith, Bytes, Text, invalid_argument, ◌⊎◌,
}
use perfectvaluecubesymmetri.Nonce.Campaign.Passes.{Returns}
use perfectvaluecubesymmetri.Nonce.Campaign.World.{
  World, Kernels, put, allocate_at, is_refused, caught_invalid, crash_child, child_status,
  copy_file,
}
use perfectvaluecubesymmetri.Nonce.Campaign.World.Steps.{
  Ready, Elsewhere, AreHealthy, put_at, put-Elsewhere, live,
}
use perfectvaluecubesymmetri.Nonce.Counter.{encode_state}
use perfectvaluecubesymmetri.Nonce.Store.{advance, allocate}
use perfectvaluecubesymmetri.Nonce.Store.Crash.{
  point_number, crash_hook, is_replaced, allocate_crashed,
}
use perfectvaluecubesymmetri.Nonce.Store.Effects.{Files, PersistencePoint, threw}
use perfectvaluecubesymmetri.Nonce.Store.Healthy.{null_hook}
use perfectvaluecubesymmetri.Nonce.Store.History.{
  position, position-advance, Holds-advance, Holds-same,
}
use perfectvaluecubesymmetri.Nonce.Store.Refusals.{allocate_other_scope}

-- After at least one call there is a file.
pub stored_image :
    (path : Text) (scope : Bytes) (v : ℕ) (files : Text → Files) (ready : Ready path scope v files)
    → 0 < v
    → (files path).state ≡ some (encode_state ready.state)
stored_image path scope v files ready some_calls = elim ready.stored.stored [
  | inl image ↦ image
  | inr (missing, first) ↦
      absurd (let nothing : v ≡ 0 = sym ready.next ∙ ap position first in omega arith)
]

-- The files at the path are kept or advanced; what that does to the next value.
pub Ready-same :
    (path : Text) (scope : Bytes) (v : ℕ) (before after : Text → Files)
    → Ready path scope v before
    → (after path).state ≡ (before path).state
    → Ready path scope v after
Ready-same path scope v before after ready same = record {
  state = ready.state;
  stored = Holds-same scope (before path) (after path) ready.state ready.stored same;
  next = ready.next;
}

Ready-crashed :
    (path : Text) (scope : Bytes) (v : ℕ) (before after : Text → Files) (replaced : Bool)
    (ready : Ready path scope v before)
    → v < 2 ^ 64
    → (after path).state
      ≡ (if replaced then some (encode_state (advance ready.state)) else (before path).state)
    → Ready path scope (if replaced then v + 1 else v) after
Ready-crashed path scope v before after true ready small e = record {
  state = advance ready.state;
  stored = Holds-advance scope (before path) (after path) ready.state ready.stored e;
  next =
      position-advance ready.state ready.stored.well_formed (live ready.state v ready.next small)
      ∙ ap (λ (n : ℕ). n + 1) ready.next;
}
Ready-crashed path scope v before after false ready small e =
    Ready-same path scope v before after ready e

module _ (kernels : Kernels) (healthy : AreHealthy kernels) where
  pub is_refused-Returns :
      (path : Text) (scope other : Bytes) (v : ℕ) (world : World)
      → scope ≢ other
      → 0 < v
      → Ready path scope v world.files
      → Returns
          (λ refused world'.
            (refused ≡ true)
            × Ready path scope v world'.files
            × Elsewhere path world.files world'.files)
          (is_refused kernels path other world)
  unfolding is_refused caught_invalid allocate_at
  is_refused-Returns path scope other v world differs some_calls ready =
      let state = ready.state in
      let kept = world.files path in
      let call : allocate (kernels world.calls) null_hook other kept
          ≡ (threw (invalid_argument "nonce counter scope does not match state file"), kept) =
        allocate_other_scope (kernels world.calls) other kept state (healthy world.calls)
          ready.stored.well_formed (stored_image path scope v world.files ready some_calls)
          (λ e. differs (sym ready.stored.same_scope ∙ e)) in
      record {
        result = true;
        after = record { files = put path kept world.files; calls = world.calls + 1 };
        ends = rw call refl;
        holds = (
          refl,
          Ready-same path scope v world.files (put path kept world.files) ready
              (ap (λ (f : Files). f.state) (put_at path kept world.files)),
          put-Elsewhere path kept world.files,
        );
      }

  pub crash_child-Returns :
      (point : PersistencePoint) (path : Text) (scope : Bytes) (v : ℕ) (world : World)
      → v < 2 ^ 64
      → Ready path scope v world.files
      → Returns
          (λ status world'.
            (status ≡ 80 + point_number point)
            × Ready path scope (if is_replaced point then v + 1 else v) world'.files
            × Elsewhere path world.files world'.files)
          (crash_child kernels point path scope world)
  unfolding crash_child allocate_at
  crash_child-Returns point path scope v world small ready =
      let run = allocate (kernels world.calls) (crash_hook point) scope (world.files path) in
      let (ends, left) =
        allocate_crashed (kernels world.calls) point scope (world.files path) ready.state
          (healthy world.calls) ready.stored (live ready.state v ready.next small) in
      record {
        result = child_status run.0;
        after = record { files = put path run.1 world.files; calls = world.calls + 1 };
        ends = refl;
        holds = (
          ap child_status ends,
          Ready-crashed path scope v world.files (put path run.1 world.files) (is_replaced point)
              ready small (ap (λ (f : Files). f.state) (put_at path run.1 world.files) ∙ left),
          put-Elsewhere path run.1 world.files,
        );
      }

-- A copy gives its target the contents of its source, where there are any.
pub copy_file-Returns :
    (overwrite : Bool) (source target : Text) (bytes : Bytes) (world : World)
    → (world.files source).state ≡ some bytes
    → ((world.files target).state ≡ none) ⊎ (overwrite ≡ true)
    → Returns
        (λ done world'.
          ((world'.files target).state ≡ some bytes) × Elsewhere target world.files world'.files)
        (copy_file overwrite source target world)
unfolding copy_file
copy_file-Returns overwrite source target bytes world found room =
    let after = put target (record (world.files target) { state = some bytes }) world.files in
    record {
      result = tt;
      after = record world { files = after };
      ends = ground (arith, found, room);
      holds = (
        ap (λ (f : Files). f.state) (put_at target _ world.files),
        put-Elsewhere target _ world.files,
      );
    }

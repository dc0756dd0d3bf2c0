-- ===== src/Nonce/Campaign/World/Steps.antt =====
-- One call of `allocate` on the campaign's files, with a kernel that disturbs nothing.
use perfectvaluecubesymmetri.Base.{
  ℕ, zero, suc, ◌+◌, ◌≤◌, ◌<◌, ◌^◌, ◌≡◌, refl, ap, ◌∙◌, inl, inr, false, none, some, arith, String,
  Bytes, Text, same_bytes, same_bytes_refl, Bool-cases, length, AllBytes, runtime_error,
}
use perfectvaluecubesymmetri.Nonce.Campaign.{nonce_from_counter}
use perfectvaluecubesymmetri.Nonce.Campaign.Passes.{
  Returns, bind-Returns, pure-Returns, Returns-weaken,
}
use perfectvaluecubesymmetri.Nonce.Campaign.World.Values.{nonce_from_counter_unique}
use perfectvaluecubesymmetri.Nonce.Campaign.World.{
  World, Kernels, put, allocate_at, expect_nonce, expect_nonces,
}
use perfectvaluecubesymmetri.Nonce.Counter.{CounterState, encode_state}
use perfectvaluecubesymmetri.Nonce.Store.{initial, advance, allocate}
use perfectvaluecubesymmetri.Nonce.Store.Effect.{Holds}
use perfectvaluecubesymmetri.Nonce.Store.Effects.{Files, returned, check}
use perfectvaluecubesymmetri.Nonce.Store.Healthy.{IsHealthy, null_hook, allocate_healthy}
use perfectvaluecubesymmetri.Nonce.Store.History.{position, position-advance, Holds-advance}
use perfectvaluecubesymmetri.Nonce.Store.Refusals.{initial-IsWellFormed}

-- The next nonce for `scope` at `path` is `v`.
pub record Ready (path : Text) (scope : Bytes) (v : ℕ) (files : Text → Files) : Type 0 where
  pub state : CounterState
  pub stored : Holds scope (files path) state
  pub next : position state ≡ v

-- Only the files at `path` may have changed.
abbrev pub Elsewhere : Text → (Text → Files) → (Text → Files) → Type 0
Elsewhere path before after =
    (other : Text) → same_bytes other path ≡ false → after other ≡ before other

abbrev pub AreHealthy : Kernels → Type 0
AreHealthy kernels = (n : ℕ) → IsHealthy (kernels n)

pub put_at :
    (path : Text) (changed : Files) (files : Text → Files) → put path changed files path ≡ changed
unfolding put
put_at path changed files = rw (same_bytes_refl path) refl

pub put-Elsewhere :
    (path : Text) (changed : Files) (files : Text → Files)
    → Elsewhere path files (put path changed files)
unfolding put
put-Elsewhere path changed files other differs = rw differs refl

-- A path without a file is ready for any scope.
pub fresh-Ready :
    (path : Text) (scope : Bytes) (files : Text → Files)
    → length scope ≡ 16
    → AllBytes scope
    → (files path).state ≡ none
    → Ready path scope 0 files
fresh-Ready path scope files size bytes missing = record {
  state = initial scope;
  stored = record {
    well_formed = initial-IsWellFormed scope size bytes;
    same_scope = refl;
    stored = inr (missing, refl);
  };
  next = refl;
}

pub Ready-at :
    {path : Text} {scope : Bytes} {v w : ℕ} {files : Text → Files}
    → Ready path scope v files
    → v ≡ w
    → Ready path scope w files
Ready-at ready e = record { state = ready.state; stored = ready.stored; next = ready.next ∙ e }

pub live :
    (state : CounterState) (v : ℕ) → position state ≡ v → v < 2 ^ 64 → state.exhausted ≡ false
live state v at small = elim (Bool-cases state.exhausted) [
  | inl spent ↦ absurd (ground arith)
  | inr l ↦ l
]

module _ (kernels : Kernels) (healthy : AreHealthy kernels) (path : Text) (scope : Bytes) where
  -- What an undisturbed call gives, and leaves.
  abbrev pub Allocated : ℕ → (Text → Files) → Bytes → World → Type 0
  Allocated v before nonce world =
      (nonce ≡ nonce_from_counter v)
      × Ready path scope (v + 1) world.files
      × Elsewhere path before world.files

  pub allocate_at-Returns :
      (v : ℕ) (world : World)
      → v < 2 ^ 64
      → Ready path scope v world.files
      → Returns (Allocated v world.files) (allocate_at kernels null_hook path scope world)
  unfolding allocate_at
  allocate_at-Returns v world small ready =
      let state = ready.state in
      let holds = ready.stored in
      let w = holds.well_formed in
      let l = live state v ready.next small in
      let after : Files = record {
        state = some (encode_state (advance state));
        temporary = none;
      } in
      let call : allocate (kernels world.calls) null_hook scope (world.files path)
          ≡ (returned state.next, after) =
        ground (
          arith,
          allocate_healthy (kernels world.calls) scope (world.files path) state
              (healthy world.calls) holds,
        ) in
      record {
        result = state.next;
        after = record { files = put path after world.files; calls = world.calls + 1 };
        ends = rw call refl;
        holds = (
          nonce_from_counter_unique state.next v w.next_length w.next_bytes small
              (ground (arith, ready.next)),
          record {
            state = advance state;
            stored =
                Holds-advance scope (world.files path) (put path after world.files path) state holds
                  (ap (λ (f : Files). f.state) (put_at path after world.files));
            next = omega (arith, position-advance state w l, ready.next);
          },
          put-Elsewhere path after world.files,
        );
      }

  -- Such a call passes its check, and only the next nonce has changed.
  abbrev pub Advanced : ℕ → (Text → Files) → Unit {0} → World → Type 0
  Advanced v before done world = Ready path scope v world.files × Elsewhere path before world.files

  pub expect_nonce-Returns :
      (v : ℕ) (message : String) (world : World)
      → v < 2 ^ 64
      → Ready path scope v world.files
      → Returns (Advanced (v + 1) world.files) (expect_nonce kernels path scope v message world)
  unfolding expect_nonce
  expect_nonce-Returns v message world small ready =
      bind-Returns (allocate_at kernels null_hook path scope)
        (λ nonce. check (same_bytes nonce (nonce_from_counter v)) (runtime_error message)) world
        (allocate_at-Returns v world small ready)
        (λ nonce world' h.
          rw (h.0, same_bytes_refl (nonce_from_counter v)) (pure-Returns tt world' (h.1, h.2)))

  pub expect_nonces-Returns :
      (count v : ℕ) (message : String) (world : World)
      → v + count ≤ 2 ^ 64
      → Ready path scope v world.files
      → Returns
          (Advanced (v + count) world.files)
          (expect_nonces kernels path scope count v message world)
  unfolding expect_nonces
  expect_nonces-Returns zero v message world small ready =
      pure-Returns tt world (Ready-at ready (omega arith), λ other differs. refl)
  expect_nonces-Returns (suc count) v message world small ready =
      bind-Returns (expect_nonce kernels path scope v message)
        (λ done. expect_nonces kernels path scope count (v + 1) message) world
        (expect_nonce-Returns v message world (omega arith) ready)
        (λ done world' h.
          Returns-weaken (expect_nonces-Returns count (v + 1) message world' (omega arith) h.0)
            (λ done world'' g.
              (Ready-at g.0 (omega arith), λ other differs. g.1 other differs ∙ h.1 other differs)))

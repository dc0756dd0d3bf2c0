-- ===== src/Nonce/Store/Tests.antt =====
-- The theorems on `allocate` at concrete files, kernels and hooks.
use perfectvaluecubesymmetri.Base.{
  ◌+◌, ◌≡◌, ◌≢◌, refl, ap, inl, inr, true, false, none, some, List, [], ◌∷◌, arith, Bytes, get_or,
  replicate, ok, overflow_error,
}
use perfectvaluecubesymmetri.Nonce.Counter.{CounterState, IsWellFormed, encode_state}
use perfectvaluecubesymmetri.Nonce.Store.{initial, advance, allocate, issued}
use perfectvaluecubesymmetri.Nonce.Store.Effects.{
  Files, Kernel, Hook, Transfer, moved, interrupted, after_replace, returned, threw,
}
use perfectvaluecubesymmetri.Nonce.Store.Transfers.{write_all, Progresses, write_all-Progresses}
use perfectvaluecubesymmetri.Nonce.Store.Effect.{Holds, Allocates, allocate-Allocates}
use perfectvaluecubesymmetri.Nonce.Store.History.{
  position, position-advance, IsIncreasing, issued-IsIncreasing,
}
use perfectvaluecubesymmetri.Nonce.Store.Healthy.{
  IsHealthy, null_hook, allocate_healthy, Counts, issued-Counts,
}
use perfectvaluecubesymmetri.Nonce.Store.Refusals.{allocate-returned}

abbrev scope : Bytes
scope = replicate 16 7

-- Every call succeeds; the reads and the writes are short and interrupted.
abbrev healthy : Kernel
healthy = record {
  lock_opens = true;
  lock_taken = true;
  state_opens = true;
  state_stats = true;
  reads = moved 40 ∷ interrupted ∷ [];
  temporary_opens = true;
  permissions_set = true;
  writes = interrupted ∷ moved 1 ∷ [];
  temporary_synced = true;
  replaced = true;
  directory_opens = true;
  directory_synced = true;
}

abbrev rename_fails : Kernel
rename_fails = record healthy { replaced = false }

-- The process ends after the file is replaced.
abbrev crash : Hook
crash after_replace = true
crash _ = false

healthy-IsHealthy : IsHealthy healthy
healthy-IsHealthy = record {
  lock_opens = refl;
  lock_taken = refl;
  state_opens = refl;
  state_stats = refl;
  reads = (omega arith, tt);
  temporary_opens = refl;
  permissions_set = refl;
  writes = (omega arith, tt);
  temporary_synced = refl;
  replaced = refl;
  directory_opens = refl;
  directory_synced = refl;
}

abbrev blank : Files
blank = record { state = none; temporary = none }

initial-IsWellFormed : IsWellFormed (initial scope)
initial-IsWellFormed = record {
  scope_length = refl;
  scope_bytes = omega arith;
  next_length = refl;
  next_bytes = omega arith;
}

blank-Holds : Holds scope blank (initial scope)
blank-Holds = record {
  well_formed = initial-IsWellFormed;
  same_scope = refl;
  stored = inr (refl, refl);
}

abbrev calls : List (Kernel × Hook)
calls =
    (healthy, null_hook) ∷ (rename_fails, null_hook) ∷ (healthy, crash) ∷ (healthy, null_hook) ∷ []

issued-IsIncreasing_example : IsIncreasing (position (initial scope)) (issued scope calls blank)
issued-IsIncreasing_example = issued-IsIncreasing scope calls blank (initial scope) blank-Holds

allocate-Allocates_example :
    Allocates blank (initial scope) (allocate rename_fails crash scope blank)
allocate-Allocates_example =
    allocate-Allocates rename_fails crash scope blank (initial scope) blank-Holds

position-advance_example : position (advance (initial scope)) ≡ position (initial scope) + 1
position-advance_example = position-advance (initial scope) initial-IsWellFormed refl

abbrev two_calls : List (Kernel × Hook)
two_calls = (healthy, null_hook) ∷ (healthy, null_hook) ∷ []

issued-Counts_example : Counts (position (initial scope)) two_calls (issued scope two_calls blank)
issued-Counts_example =
    issued-Counts scope two_calls blank (initial scope) blank-Holds
      (healthy-IsHealthy, refl, (healthy-IsHealthy, refl, tt)) (omega arith)

-- The last nonce has been handed out.
abbrev spent : CounterState
spent = record { scope = scope; next = replicate 24 255; exhausted = true }

spent-IsWellFormed : IsWellFormed spent
spent-IsWellFormed = record {
  scope_length = refl;
  scope_bytes = omega arith;
  next_length = refl;
  next_bytes = omega arith;
}

abbrev spent_files : Files
spent_files = record { state = some (encode_state spent); temporary = none }

allocate_healthy_example :
    allocate healthy null_hook scope spent_files
    ≡ (threw (overflow_error "192-bit nonce counter exhausted"), spent_files)
allocate_healthy_example =
    allocate_healthy healthy scope spent_files spent healthy-IsHealthy
      (record { well_formed = spent-IsWellFormed; same_scope = refl; stored = inl refl })

abbrev after_first : Files
after_first = record { state = some (encode_state (advance (initial scope))); temporary = none }

first_call : allocate healthy null_hook scope blank ≡ (returned (replicate 24 0), after_first)
first_call = allocate_healthy healthy scope blank (initial scope) healthy-IsHealthy blank-Holds

allocate-returned_example :
    (state : CounterState) × Holds scope blank state
    × (state.exhausted ≡ false)
    × (replicate 24 0 ≡ state.next)
allocate-returned_example =
    allocate-returned healthy null_hook scope blank after_first (replicate 24 0) refl (omega arith)
      tt first_call

other-scope : spent.scope ≢ replicate 16 8
other-scope e = absurd (omega (arith, ap (λ b. get_or b 0 0) e))

abbrev short : List Transfer
short = interrupted ∷ moved 2 ∷ moved 1 ∷ []

short-Progresses : Progresses short
short-Progresses = (omega arith, (omega arith, tt))

abbrev text : Bytes
text = 1 ∷ 2 ∷ 3 ∷ 4 ∷ 5 ∷ []

write_all-Progresses_example : write_all short text [] ≡ (ok tt, text)
write_all-Progresses_example = write_all-Progresses short text [] short-Progresses

-- The file before the first call, put back after it.

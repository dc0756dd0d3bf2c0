-- ===== src/Nonce/Store.antt =====
-- `PersistentNonceCounter::allocate` and the file operations below it
-- (analysis/nonce_management/nonce_management.cpp), as a state and exception monad over the two files.
-- The kernel's answers to the system calls are the argument `Kernel`; the hook is an argument too.
pub mod Effects
pub mod Transfers
pub mod Effect
pub mod History
pub mod Healthy
pub mod Crash
pub mod Refusals
pub mod Snapshot
mod Tests
use perfectvaluecubesymmetri.Base.{
  ℕ, zero, suc, ◌+◌, ◌-◌, ◌≡◌, Bool, true, false, not, ◌&&◌, Option, none, some, [], ◌∷◌, ◌++◌,
  List, min, leb, ◌==◌, if◌then◌else◌, same_bytes, Bytes, length, take, drop, replicate, Result, ok,
  err, Exception, runtime_error, invalid_argument, overflow_error, system_error,
}
use perfectvaluecubesymmetri.Nonce.Counter.{
  CounterState, state_bytes, equal_at, encode_state, decode_state, increment,
}
use perfectvaluecubesymmetri.Nonce.Store.Effects.{
  modify, gets, Files, Kernel, Transfer, moved, interrupted, failed, PersistencePoint, after_lock,
  after_temporary_sync, after_replace, after_directory_sync, Outcome, returned, threw, exited,
  Action, ◌>>=◌, ◌>>◌, pure, throw, lift, check, invoke_hook, Hook,
}
use perfectvaluecubesymmetri.Nonce.Store.Transfers.{write_all, read_all}

-- `CounterState initial{}; initial.scope = scope;`
abbrev pub initial : Bytes → CounterState
initial scope = record { scope = scope; next = replicate 24 0; exhausted = false }

-- `load_state` once the file is open.
pub load_file : Kernel → Bytes → Bytes → Action CounterState
load_file kernel scope file = do
  check kernel.state_stats (system_error "stat nonce counter state")
  check (length file == state_bytes) (runtime_error "nonce counter state has an invalid size")
  encoded ← lift (read_all kernel.reads state_bytes file [])
  state ← lift (decode_state encoded)
  check (same_bytes state.scope scope)
      (invalid_argument "nonce counter scope does not match state file")
  pure state

-- `::open` fails with `ENOENT` where there is no file.
pub load_state : Kernel → Bytes → Action CounterState
unfolding load_file
load_state kernel scope = do
  check kernel.state_opens (system_error "open nonce counter state")
  file ← gets (λ files. files.state)
  elim file [ none ↦ pure (initial scope) | some bytes ↦ load_file kernel scope bytes ]

-- `write_all` on the temporary file, which `O_TRUNC` has emptied.
pub write_temporary : List Transfer → Bytes → Action (Unit {0})
write_temporary transfers bytes files =
    let (result, file) = write_all transfers bytes [] in
    lift result (record files { temporary = some file })

-- `::rename`, which POSIX makes atomic.
pub rename_temporary : Action (Unit {0})
rename_temporary = modify λ files. record { state = files.temporary; temporary = none }

pub persist_state : Kernel → Hook → CounterState → Action (Unit {0})
unfolding write_temporary rename_temporary
persist_state kernel hook state = do
  check kernel.temporary_opens (system_error "open temporary nonce counter state")
  modify λ files. record files { temporary = some [] }
  check kernel.permissions_set (system_error "set nonce counter state permissions")
  write_temporary kernel.writes (encode_state state)
  check kernel.temporary_synced (system_error "sync temporary nonce counter state")
  invoke_hook hook after_temporary_sync
  check kernel.replaced (system_error "replace nonce counter state")
  rename_temporary
  invoke_hook hook after_replace
  check kernel.directory_opens (system_error "open nonce counter directory")
  check kernel.directory_synced (system_error "sync nonce counter directory")
  invoke_hook hook after_directory_sync

-- `updated` in `allocate`: the next nonce, or the same one marked as the last.
pub advance : CounterState → CounterState
advance current =
    let (next, incremented) = increment current.next in
    if incremented then record current { next = next } else record current { exhausted = true }

pub allocate : Kernel → Hook → Bytes → Action Bytes
unfolding load_state persist_state advance
allocate kernel hook scope = do
  check kernel.lock_opens (system_error "open nonce counter lock")
  check kernel.lock_taken (system_error "lock nonce counter state")
  invoke_hook hook after_lock
  current ← load_state kernel scope
  check (not current.exhausted) (overflow_error "192-bit nonce counter exhausted")
  persist_state kernel hook (advance current)
  pure current.next

abbrev pub returns : Outcome Bytes → List Bytes → List Bytes
returns (returned nonce) rest = nonce ∷ rest
returns (threw e) rest = rest
returns (exited p) rest = rest

-- The nonces that a history of calls returns, in order.
pub issued : Bytes → List (Kernel × Hook) → Files → List Bytes
issued scope [] files = []
issued scope ((kernel, hook) ∷ calls) files =
    let (outcome, files') = allocate kernel hook scope files in
    returns outcome (issued scope calls files')

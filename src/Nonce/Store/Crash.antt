-- ===== src/Nonce/Store/Crash.antt =====
-- A process that ends in the hook, at one chosen point of an otherwise undisturbed call: the hook of
-- analysis/nonce_misuse_campaign.cpp.
use perfectvaluecubesymmetri.Base.{
  ℕ, ◌≡◌, Bool, false, some, [], arith, Bytes, ◌==◌, if◌then◌else◌, ◌||◌,
}
use perfectvaluecubesymmetri.Nonce.Counter.{CounterState, encode_state}
use perfectvaluecubesymmetri.Nonce.Store.{persist_state, advance, allocate}
use perfectvaluecubesymmetri.Nonce.Store.Effect.{Holds}
use perfectvaluecubesymmetri.Nonce.Store.Effects.{
  Files, Kernel, Hook, PersistencePoint, after_lock, after_temporary_sync, after_replace,
  after_directory_sync, exited,
}
use perfectvaluecubesymmetri.Nonce.Store.Healthy.{IsHealthy, load_state_healthy}
use perfectvaluecubesymmetri.Nonce.Store.Transfers.{write_all-Progresses}

-- `static_cast<int>(point)`.
abbrev pub point_number : PersistencePoint → ℕ
point_number after_lock = 0
point_number after_temporary_sync = 1
point_number after_replace = 2
point_number after_directory_sync = 3

-- `crash_hook`, where `gCrashPoint` is the first argument.
abbrev pub crash_hook : PersistencePoint → Hook
crash_hook chosen point = point_number point == point_number chosen

-- `AfterReplace` and `AfterDirectorySync` are the points where the new state is in place.
abbrev pub is_replaced : PersistencePoint → Bool
is_replaced point =
    point_number point == point_number after_replace
    || point_number point == point_number after_directory_sync

-- The process ends at the chosen point, with the old state in the file before the replacement and
-- with the advanced one after it. The kernel disturbs nothing and a nonce is left.
pub allocate_crashed :
    (kernel : Kernel) (point : PersistencePoint) (scope : Bytes) (files : Files)
    (state : CounterState)
    → IsHealthy kernel
    → Holds scope files state
    → state.exhausted ≡ false
    → ((allocate kernel (crash_hook point) scope files).0 ≡ exited point)
      × ((allocate kernel (crash_hook point) scope files).1.state
          ≡ (if is_replaced point then some (encode_state (advance state)) else files.state))
unfolding allocate persist_state
allocate_crashed kernel after_lock scope files state h holds live = ground arith
allocate_crashed kernel after_temporary_sync scope files state h holds live = ground (
  arith,
  load_state_healthy kernel scope files state h holds,
  write_all-Progresses kernel.writes (encode_state (advance state)) [] h.writes,
)
allocate_crashed kernel after_replace scope files state h holds live = ground (
  arith,
  load_state_healthy kernel scope files state h holds,
  write_all-Progresses kernel.writes (encode_state (advance state)) [] h.writes,
)
allocate_crashed kernel after_directory_sync scope files state h holds live = ground (
  arith,
  load_state_healthy kernel scope files state h holds,
  write_all-Progresses kernel.writes (encode_state (advance state)) [] h.writes,
)

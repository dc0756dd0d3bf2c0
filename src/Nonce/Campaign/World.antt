-- ===== src/Nonce/Campaign/World.antt =====
-- The state files that the tests of analysis/nonce_misuse_campaign.cpp work on, and the ways they
-- call `allocate`. The kernel's answers to the `n`-th call are `kernels n`.
pub mod Values
pub mod Steps
pub mod Interruptions
use perfectvaluecubesymmetri.Base.{
  ℕ, zero, suc, ◌+◌, Bool, true, false, Option, none, some, [], ◌∷◌, ◌==◌, if◌then◌else◌,
  same_bytes, Bytes, String, Exception, runtime_error, invalid_argument, system_error, Text,
}
use perfectvaluecubesymmetri.Nonce.Campaign.{nonce_from_counter}
use perfectvaluecubesymmetri.Nonce.Store.{allocate}
use perfectvaluecubesymmetri.Nonce.Store.Effects.{
  Files, Kernel, Hook, PersistencePoint, after_lock, after_temporary_sync, after_replace,
  after_directory_sync, Outcome, returned, threw, exited, Stateful, ◌>>=◌, ◌>>◌, pure, throw, check,
}
use perfectvaluecubesymmetri.Nonce.Store.Crash.{point_number, crash_hook}
use perfectvaluecubesymmetri.Nonce.Store.Healthy.{null_hook}

-- The files below each path of the campaign's directory, and the number of calls of `allocate` so far.
pub record World : Type 0 where
  pub files : Text → Files
  pub calls : ℕ

abbrev pub Campaign : Type 0 → Type 0
Campaign A = Stateful World A

-- The answers to every call.
abbrev pub Kernels : Type 0
Kernels = ℕ → Kernel

pub put : Text → Files → (Text → Files) → Text → Files
put path changed files other = if same_bytes other path then changed else files other

pub allocate_at : Kernels → Hook → Text → Bytes → Campaign Bytes
unfolding put
allocate_at kernels hook path scope world =
    let (outcome, changed) = allocate (kernels world.calls) hook scope (world.files path) in
    (outcome, record { files = put path changed world.files; calls = world.calls + 1 })

-- `require(PersistentNonceCounter::allocate(path, scope) == nonce_from_counter(value), message);`
pub expect_nonce : Kernels → Text → Bytes → ℕ → String → Campaign (Unit {0})
unfolding allocate_at
expect_nonce kernels path scope value message = do
  nonce ← allocate_at kernels null_hook path scope
  check (same_bytes nonce (nonce_from_counter value)) (runtime_error message)

-- The loop that expects `count` values from `value` on.
pub expect_nonces : Kernels → Text → Bytes → ℕ → ℕ → String → Campaign (Unit {0})
unfolding expect_nonce
expect_nonces kernels path scope zero value message = pure tt
expect_nonces kernels path scope (suc count) value message = do
  expect_nonce kernels path scope value message
  expect_nonces kernels path scope count (value + 1) message

-- `try { ... } catch (const std::invalid_argument&) { rejected = true; }`
pub caught_invalid : Outcome Bytes → Outcome Bool
caught_invalid (returned nonce) = returned false
caught_invalid (threw (invalid_argument message)) = returned true
caught_invalid (threw e) = threw e
caught_invalid (exited point) = exited point

pub is_refused : Kernels → Text → Bytes → Campaign Bool
unfolding allocate_at caught_invalid
is_refused kernels path scope world =
    let (outcome, next) = allocate_at kernels null_hook path scope world in
    (caught_invalid outcome, next)

-- The status of the child process: that of the hook, 125 after an exception, 126 after a return.
abbrev pub child_status : Outcome Bytes → ℕ
child_status (returned nonce) = 126
child_status (threw e) = 125
child_status (exited point) = 80 + point_number point

-- The answers of `fork` and `waitpid` for one child: that it was started, that the wait returned it, and
-- that it ended by an exit.
pub record Process : Type 0 where
  pub forked : Bool
  pub waited : Bool
  pub exited_normally : Bool

-- The forked child's call, and the parent's wait for it.
pub crash_child : Kernels → PersistencePoint → Text → Bytes → Campaign ℕ
unfolding allocate_at
crash_child kernels point path scope world =
    let (outcome, next) = allocate_at kernels (crash_hook point) path scope world in
    (returned (child_status outcome), next)

-- `std::filesystem::copy_file`; `overwrite` is `copy_options::overwrite_existing`.
pub copy_file : Bool → Text → Text → Campaign (Unit {0})
unfolding put
copy_file overwrite source target world = elim (world.files source).state [
  | none ↦ (threw (system_error "cannot copy file"), world)
  | some bytes ↦ elim (world.files target).state [
    | none ↦ (
      returned tt,
      record world {
        files = put target (record (world.files target) { state = some bytes }) world.files;
      },
    )
    | some old ↦
        if overwrite
        then (
          returned tt,
          record world {
            files = put target (record (world.files target) { state = some bytes }) world.files;
          },
        )
        else (threw (system_error "cannot copy file"), world)
  ]
]

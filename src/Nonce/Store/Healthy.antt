-- ===== src/Nonce/Store/Healthy.antt =====
-- Calls of `allocate` that nothing disturbs but short and interrupted transfers.
use perfectvaluecubesymmetri.Base.{
  same_bytes_refl, ℕ, ◌+◌, ◌^◌, ◌≤◌, ◌≡◌, refl, ap, ◌∙◌, true, false, none, some, List, [], ◌∷◌,
  arith, Bytes, length, overflow_error, Bool-cases, inl, inr, take-all, ok, subst, if◌then◌else◌,
}
use perfectvaluecubesymmetri.Nonce.Counter.{CounterState, IsWellFormed, encode_state}
use perfectvaluecubesymmetri.Nonce.Counter.Read.{decode_state-encode_state}
use perfectvaluecubesymmetri.Nonce.Counter.Write.{length-encode_state}
use perfectvaluecubesymmetri.Nonce.Counter.Value.{value}
use perfectvaluecubesymmetri.Nonce.Store.{
  load_file, load_state, persist_state, advance, allocate, issued, returns,
}
use perfectvaluecubesymmetri.Nonce.Store.Effects.{Files, Kernel, Hook, returned, threw}
use perfectvaluecubesymmetri.Nonce.Store.Transfers.{
  Progresses, write_all-Progresses, read_all, read_all-Progresses,
}
use perfectvaluecubesymmetri.Nonce.Store.Effect.{Holds}
use perfectvaluecubesymmetri.Nonce.Store.History.{position, position-advance, Holds-advance}

pub record IsHealthy (kernel : Kernel) : Type 0 where
  pub lock_opens : kernel.lock_opens ≡ true
  pub lock_taken : kernel.lock_taken ≡ true
  pub state_opens : kernel.state_opens ≡ true
  pub state_stats : kernel.state_stats ≡ true
  pub reads : Progresses kernel.reads
  pub temporary_opens : kernel.temporary_opens ≡ true
  pub permissions_set : kernel.permissions_set ≡ true
  pub writes : Progresses kernel.writes
  pub temporary_synced : kernel.temporary_synced ≡ true
  pub replaced : kernel.replaced ≡ true
  pub directory_opens : kernel.directory_opens ≡ true
  pub directory_synced : kernel.directory_synced ≡ true

-- `hook == nullptr`.
abbrev pub null_hook : Hook
null_hook point = false

persist_state_healthy :
    (kernel : Kernel) (state : CounterState) (files : Files)
    → IsHealthy kernel
    → persist_state kernel null_hook state files
      ≡ (returned tt, record { state = some (encode_state state); temporary = none })
unfolding persist_state
persist_state_healthy kernel state files h =
    ground (arith, write_all-Progresses kernel.writes (encode_state state) [] h.writes)

pub read_all_healthy :
    (kernel : Kernel) (state : CounterState)
    → IsHealthy kernel
    → IsWellFormed state
    → read_all kernel.reads 90 (encode_state state) [] ≡ ok (encode_state state)
read_all_healthy kernel state h w =
    read_all-Progresses kernel.reads 90 (encode_state state) []
      (omega (arith, length-encode_state state w)) h.reads
    ∙ ap ok (take-all 90 (encode_state state) (omega (arith, length-encode_state state w)))

load_file_healthy :
    (kernel : Kernel) (files : Files) (state : CounterState)
    → IsHealthy kernel
    → IsWellFormed state
    → load_file kernel state.scope (encode_state state) files ≡ (returned state, files)
unfolding load_file
load_file_healthy kernel files state h w = ground (
  arith,
  read_all_healthy kernel state h w,
  decode_state-encode_state state w,
  length-encode_state state w,
  same_bytes_refl state.scope,
)

pub load_state_healthy :
    (kernel : Kernel) (scope : Bytes) (files : Files) (state : CounterState)
    → IsHealthy kernel
    → Holds scope files state
    → load_state kernel scope files ≡ (returned state, files)
unfolding load_state
load_state_healthy kernel scope files state h holds =
    ground (arith, load_file_healthy kernel files state h holds.well_formed)

-- An undisturbed call on files that hold a state of the scope returns the next nonce and replaces the
-- file; with none left it throws
-- `std::overflow_error` and changes nothing.
pub allocate_healthy :
    (kernel : Kernel) (scope : Bytes) (files : Files) (state : CounterState)
    → IsHealthy kernel
    → Holds scope files state
    → allocate kernel null_hook scope files ≡ (
        if state.exhausted
        then (threw (overflow_error "192-bit nonce counter exhausted"), files)
        else (
          returned state.next,
          record { state = some (encode_state (advance state)); temporary = none },
        ))
unfolding allocate
allocate_healthy kernel scope files state h holds = ground (
  arith,
  load_state_healthy kernel scope files state h holds,
  persist_state_healthy kernel (advance state) files h,
)

abbrev pub AllHealthy : List (Kernel × Hook) → Type 0
AllHealthy [] = Unit
AllHealthy ((kernel, hook) ∷ calls) = IsHealthy kernel × (hook ≡ null_hook) × AllHealthy calls

-- Consecutive values from `start` on, one for each call.
abbrev pub Counts : {A : Type 0} → ℕ → List A → List Bytes → Type 0
Counts start [] [] = Unit
Counts start (c ∷ calls) (n ∷ nonces) = (value n ≡ start) × Counts (start + 1) calls nonces
Counts start _ _ = ⊥

-- Undisturbed calls, from files that hold a state of the scope, return consecutive values with no gap,
-- as long as the 192 bits last.
pub issued-Counts :
    (scope : Bytes) (calls : List (Kernel × Hook)) (files : Files) (state : CounterState)
    → Holds scope files state
    → AllHealthy calls
    → position state + length calls ≤ 2 ^ 192
    → Counts (position state) calls (issued scope calls files)
unfolding issued
issued-Counts scope [] files state holds h room = tt
issued-Counts scope ((kernel, hook) ∷ calls) files state holds h room =
    elim (Bool-cases state.exhausted) [
      | inl spent ↦ absurd (ground arith)
      | inr live ↦
          let after : Files = record {
            state = some (encode_state (advance state));
            temporary = none;
          } in
          let next = Holds-advance scope files after state holds refl in
          let step = position-advance state holds.well_formed live in
          let call : allocate kernel hook scope files ≡ (returned state.next, after) =
            rw h.1 (ground (arith, allocate_healthy kernel scope files state h.0 holds)) in
          rw (call, returns)
            (
              ground arith,
              subst (λ (n : ℕ). Counts n calls (issued scope calls after)) step
                  (issued-Counts scope calls after (advance state) next h.2 (omega (arith, step))),
            )
    ]

-- ===== src/Nonce/Store/Effect.antt =====
-- What one call of `allocate` does to the files, whatever the kernel and the hook answer.
use perfectvaluecubesymmetri.Base.{
  ◌≡◌, ◌⊎◌, inl, inr, ◌∙◌, false, Option, none, some, [], arith, Bytes, Result-cases, take-all,
}
use perfectvaluecubesymmetri.Nonce.Counter.{CounterState, IsWellFormed, encode_state}
use perfectvaluecubesymmetri.Nonce.Counter.Read.{decode_state-encode_state}
use perfectvaluecubesymmetri.Nonce.Counter.Write.{length-encode_state}
use perfectvaluecubesymmetri.Nonce.Store.{
  initial, load_file, load_state, persist_state, advance, allocate,
}
use perfectvaluecubesymmetri.Nonce.Store.Effects.{
  Files, Kernel, Outcome, returned, threw, exited, Hook,
}
use perfectvaluecubesymmetri.Nonce.Store.Transfers.{write_all-ok, read_all, read_all-ok}

-- The state file holds `after`, or, unless the call returns normally, it may be as it was before.
abbrev pub Replaces : {A : Type 0} → Option Bytes → Bytes → Outcome A × Files → Type 0
Replaces before after (returned a, files) = files.state ≡ some after
Replaces before after (threw e, files) = (files.state ≡ before) ⊎ (files.state ≡ some after)
Replaces before after (exited p, files) = (files.state ≡ before) ⊎ (files.state ≡ some after)

-- A crash or an error at any point of `persist_state` leaves the old state or the new one, never a
-- part of either.
pub persist_state-Replaces :
    (kernel : Kernel) (hook : Hook) (state : CounterState) (files : Files)
    → Replaces files.state (encode_state state) (persist_state kernel hook state files)
unfolding persist_state
persist_state-Replaces kernel hook state files =
    ground (arith, write_all-ok kernel.writes (encode_state state) [])

-- The files hold `state` for `scope`: its image, or no file where it is the initial one.
pub record Holds (scope : Bytes) (files : Files) (state : CounterState) : Type 0 where
  pub well_formed : IsWellFormed state
  pub same_scope : state.scope ≡ scope
  pub stored :
      (files.state ≡ some (encode_state state)) ⊎ ((files.state ≡ none) × (state ≡ initial scope))

-- Loading what the files hold gives that state or an error, and changes nothing.
abbrev Loads : CounterState → Files → Outcome CounterState × Files → Type 0
Loads state files (returned s, files') = (s ≡ state) × (files' ≡ files)
Loads state files (threw e, files') = files' ≡ files
Loads state files (exited p, files') = ⊥

load_file-Loads :
    (kernel : Kernel) (scope : Bytes) (files : Files) (state : CounterState)
    → IsWellFormed state
    → Loads state files (load_file kernel scope (encode_state state) files)
unfolding load_file
load_file-Loads kernel scope files state w =
    elim (Result-cases (read_all kernel.reads 90 (encode_state state) [])) [
      | inl (bytes, e) ↦
          let same : bytes ≡ encode_state state =
            read_all-ok kernel.reads 90 (encode_state state) [] e
            ∙ take-all 90 (encode_state state) (omega (arith, length-encode_state state w)) in
          ground (arith, e, same, decode_state-encode_state state w)
      | inr (x, e) ↦ ground (arith, e)
    ]

load_state-Loads :
    (kernel : Kernel) (scope : Bytes) (files : Files) (state : CounterState)
    → Holds scope files state
    → Loads state files (load_state kernel scope files)
unfolding load_state
load_state-Loads kernel scope files state h =
    ground (arith, load_file-Loads kernel scope files state h.well_formed)

-- The effect of a call on files that hold `state`: a normal return hands out its nonce.
abbrev pub Allocates : Files → CounterState → Outcome Bytes × Files → Type 0
Allocates files state (returned nonce, files') =
    (nonce ≡ state.next)
    × (state.exhausted ≡ false)
    × (files'.state ≡ some (encode_state (advance state)))
Allocates files state (threw e, files') =
    (files'.state ≡ files.state)
    ⊎ ((state.exhausted ≡ false) × (files'.state ≡ some (encode_state (advance state))))
Allocates files state (exited p, files') =
    (files'.state ≡ files.state)
    ⊎ ((state.exhausted ≡ false) × (files'.state ≡ some (encode_state (advance state))))

-- From files that hold `state`, whatever fails and wherever the process ends, the file is the old one or that of the advanced state,
-- and a nonce is returned only once the advanced state is in place.
pub allocate-Allocates :
    (kernel : Kernel) (hook : Hook) (scope : Bytes) (files : Files) (state : CounterState)
    → Holds scope files state
    → Allocates files state (allocate kernel hook scope files)
unfolding allocate
allocate-Allocates kernel hook scope files state h = ground (
  arith,
  load_state-Loads kernel scope files state h,
  persist_state-Replaces kernel hook (advance state) files,
)

-- ===== src/Nonce/Store/Snapshot.antt =====
-- What a restored copy of the state file brings back.
use perfectvaluecubesymmetri.Base.{
  ◌≡◌, refl, ap₂, inl, inr, List, [], ◌∷◌, arith, Bytes, Option-cases,
}
use perfectvaluecubesymmetri.Nonce.Counter.{CounterState}
use perfectvaluecubesymmetri.Nonce.Store.{
  advance, load_file, load_state, persist_state, allocate, issued, returns,
}
use perfectvaluecubesymmetri.Nonce.Store.Effects.{Files, Kernel, Hook, Outcome, Outcome-cases}

-- Two results that agree but for the temporary file.
abbrev Agrees : {A : Type 0} → Outcome A × Files → Outcome A × Files → Type 0
Agrees r r' = (r.0 ≡ r'.0) × (r.1.state ≡ r'.1.state)

load_file-Agrees :
    (kernel : Kernel) (scope file : Bytes) (files files' : Files)
    → files.state ≡ files'.state
    → Agrees (load_file kernel scope file files) (load_file kernel scope file files')
unfolding load_file
load_file-Agrees kernel scope file files files' e = ground arith

load_state-Agrees :
    (kernel : Kernel) (scope : Bytes) (files files' : Files)
    → files.state ≡ files'.state
    → Agrees (load_state kernel scope files) (load_state kernel scope files')
unfolding load_state
load_state-Agrees kernel scope files files' e = elim (Option-cases files.state) [
  | inl missing ↦ ground arith
  | inr (file, found) ↦ ground (arith, load_file-Agrees kernel scope file files files' e)
]

persist_state-Agrees :
    (kernel : Kernel) (hook : Hook) (state : CounterState) (files files' : Files)
    → files.state ≡ files'.state
    → Agrees (persist_state kernel hook state files) (persist_state kernel hook state files')
unfolding persist_state
persist_state-Agrees kernel hook state files files' e = ground arith

allocate-Agrees :
    (kernel : Kernel) (hook : Hook) (scope : Bytes) (files files' : Files)
    → files.state ≡ files'.state
    → Agrees (allocate kernel hook scope files) (allocate kernel hook scope files')
unfolding allocate
allocate-Agrees kernel hook scope files files' e =
    let loads = load_state-Agrees kernel scope files files' e in
    elim (Outcome-cases (load_state kernel scope files).0) [
      | inl (state, loaded) ↦ ground (
        arith,
        loads,
        loaded,
        persist_state-Agrees kernel hook (advance state) (load_state kernel scope files).1
            (load_state kernel scope files').1 loads.1,
      )
      | inr (inl (x, failed)) ↦ ground (arith, loads, failed)
      | inr (inr (p, failed)) ↦ ground (arith, loads, failed)
    ]

-- A state file put back from a copy makes the same calls return the same nonces once more: the
-- counter alone does not detect a rollback.
pub issued_rollback :
    (scope : Bytes) (calls : List (Kernel × Hook)) (files later : Files)
    → later.state ≡ files.state
    → issued scope calls later ≡ issued scope calls files
unfolding issued
issued_rollback scope [] files later e = refl
issued_rollback scope ((kernel, hook) ∷ calls) files later e =
    let agree = allocate-Agrees kernel hook scope later files e in
    ap₂ returns agree.0 (
      issued_rollback scope calls (allocate kernel hook scope files).1
        (allocate kernel hook scope later).1 agree.1)

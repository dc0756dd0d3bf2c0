-- ===== src/Nonce/Store/History.antt =====
-- A history of `allocate` calls on one state file, each with its own kernel answers and hook: restarts,
-- errors and crashes in any order. The file lock makes calls of several processes such a sequence.
use perfectvaluecubesymmetri.Base.{
  ℕ, ◌+◌, ◌^◌, ◌≤◌, ◌<◌, ◌≡◌, ◌⊎◌, inl, inr, ap, ◌∙◌, false, some, List, [], ◌∷◌, if◌then◌else◌,
  arith, Bytes, Bool-cases, subst,
}
use perfectvaluecubesymmetri.Nonce.Counter.{CounterState, IsWellFormed, encode_state, increment}
use perfectvaluecubesymmetri.Nonce.Counter.Value.{value, value-lt, increment-IsIncremented}
use perfectvaluecubesymmetri.Nonce.Store.{advance, allocate, issued, returns}
use perfectvaluecubesymmetri.Nonce.Store.Effects.{
  Files, Kernel, Hook, Outcome, returned, threw, exited,
}
use perfectvaluecubesymmetri.Nonce.Store.Effect.{Holds, Allocates, allocate-Allocates}

-- The abstract counter: the number of nonces before the next one, 2 ^ 192 when none is left.
abbrev pub position : CounterState → ℕ
position state = if state.exhausted then 2 ^ 192 else value state.next

pub position-le : (state : CounterState) → IsWellFormed state → position state ≤ 2 ^ 192
position-le state w = ground (arith, value-lt state.next w.next_length w.next_bytes)

pub advance-IsWellFormed :
    (state : CounterState) → IsWellFormed state → IsWellFormed (advance state)
unfolding advance
advance-IsWellFormed state w =
    let i = increment-IsIncremented state.next w.next_length w.next_bytes in
    elim (Bool-cases (increment state.next).1) [
      | inl e ↦ rw e (record {
        scope_length = w.scope_length;
        scope_bytes = w.scope_bytes;
        next_length = i.same_length;
        next_bytes = i.bytes;
      })
      | inr e ↦ rw e (record {
        scope_length = w.scope_length;
        scope_bytes = w.scope_bytes;
        next_length = w.next_length;
        next_bytes = w.next_bytes;
      })
    ]

-- A step of the file's state is a step of the abstract counter.
pub position-advance :
    (state : CounterState)
    → IsWellFormed state
    → state.exhausted ≡ false
    → position (advance state) ≡ position state + 1
unfolding advance
position-advance state w e =
    let i = increment-IsIncremented state.next w.next_length w.next_bytes in
    ground (arith, i.wraps, i.reports, value-lt state.next w.next_length w.next_bytes)

advance-scope : (state : CounterState) → (advance state).scope ≡ state.scope
unfolding advance
advance-scope state = ground arith

pub Holds-advance :
    (scope : Bytes) (files files' : Files) (state : CounterState)
    → Holds scope files state
    → files'.state ≡ some (encode_state (advance state))
    → Holds scope files' (advance state)
Holds-advance scope files files' state h e = record {
  well_formed = advance-IsWellFormed state h.well_formed;
  same_scope = advance-scope state ∙ h.same_scope;
  stored = inl e;
}

pub Holds-same :
    (scope : Bytes) (files files' : Files) (state : CounterState)
    → Holds scope files state
    → files'.state ≡ files.state
    → Holds scope files' state
Holds-same scope files files' state h e = record {
  well_formed = h.well_formed;
  same_scope = h.same_scope;
  stored = ground (arith, h.stored);
}

-- Every value is at least `low` and below 2 ^ 192, and the values increase strictly.
abbrev pub IsIncreasing : ℕ → List Bytes → Type 0
IsIncreasing low [] = Unit
IsIncreasing low (n ∷ nonces) =
    (low ≤ value n) × (value n < 2 ^ 192) × IsIncreasing (value n + 1) nonces

IsIncreasing-weaken :
    (low low' : ℕ) (nonces : List Bytes)
    → low ≤ low'
    → IsIncreasing low' nonces
    → IsIncreasing low nonces
IsIncreasing-weaken low low' [] h i = tt
IsIncreasing-weaken low low' (n ∷ nonces) h i = (omega arith, i.1, i.2)

unchanged_or_advanced :
    (scope : Bytes) (files files' : Files) (state : CounterState) (rest : List Bytes)
    → Holds scope files state
    → (files'.state ≡ files.state)
      ⊎ ((state.exhausted ≡ false) × (files'.state ≡ some (encode_state (advance state))))
    → ((s : CounterState) → Holds scope files' s → IsIncreasing (position s) rest)
    → IsIncreasing (position state) rest
unchanged_or_advanced scope files files' state rest h (inl same) ih =
    ih state (Holds-same scope files files' state h same)
unchanged_or_advanced scope files files' state rest h (inr (live, stored)) ih =
    IsIncreasing-weaken (position state) (position (advance state)) rest
      (omega (arith, position-advance state h.well_formed live))
      (ih (advance state) (Holds-advance scope files files' state h stored))

-- One call in front of a history: its outcome, and the claim for the rest from either state.
returns-IsIncreasing :
    (scope : Bytes) (files files' : Files) (state : CounterState) (outcome : Outcome Bytes)
    (rest : List Bytes)
    → Holds scope files state
    → Allocates files state (outcome, files')
    → ((s : CounterState) → Holds scope files' s → IsIncreasing (position s) rest)
    → IsIncreasing (position state) (returns outcome rest)
returns-IsIncreasing scope files files' state (returned nonce) rest h (same, live, stored) ih =
    let next = ih (advance state) (Holds-advance scope files files' state h stored) in
    let w = h.well_formed in
    let at : value nonce ≡ position state = ap value same ∙ ground arith in
    (
      omega (arith, at),
      omega (arith, ap value same, value-lt state.next w.next_length w.next_bytes),
      subst (λ (n : ℕ). IsIncreasing n rest) (omega (arith, at, position-advance state w live))
          next,
    )
returns-IsIncreasing scope files files' state (threw e) rest h effect ih =
    unchanged_or_advanced scope files files' state rest h effect ih
returns-IsIncreasing scope files files' state (exited p) rest h effect ih =
    unchanged_or_advanced scope files files' state rest h effect ih

-- Over any history of calls, from files that hold a state of the scope, the returned nonces increase
-- strictly: none is ever returned twice.
pub issued-IsIncreasing :
    (scope : Bytes) (calls : List (Kernel × Hook)) (files : Files) (state : CounterState)
    → Holds scope files state
    → IsIncreasing (position state) (issued scope calls files)
unfolding issued
issued-IsIncreasing scope [] files state h = tt
issued-IsIncreasing scope ((kernel, hook) ∷ calls) files state h =
    let (outcome, files') = allocate kernel hook scope files in
    returns-IsIncreasing scope files files' state outcome (issued scope calls files') h
      (allocate-Allocates kernel hook scope files state h)
      (λ s hs. issued-IsIncreasing scope calls files' s hs)

-- ===== src/Nonce/Store/Effects.antt =====
-- The world of `allocate`: the files, the kernel's answers, the hook, and how a call ends.
use perfectvaluecubesymmetri.Base.{
  ◌≡◌, ◌⊎◌, inl, inr, refl, ℕ, Bool, true, false, Option, List, Bytes, Result, ok, err, Exception,
}

-- The contents at `state_path` and at `state_path + ".tmp"`; `none` where there is no file. The lock
-- file is only locked, never read.
pub record Files : Type 0 where
  pub state : Option Bytes
  pub temporary : Option Bytes

-- How one `::read` or `::write` ends: so many bytes, `EINTR`, or another error.
pub data Transfer : Type 0 where
  moved : ℕ → Transfer
  interrupted failed : Transfer

-- Whether each system call of one `allocate` succeeds, in the order of the calls. Where `state_opens`
-- is false `::open` fails for another reason than `ENOENT`. After the listed transfers one more call
-- moves all that is left.
pub record Kernel : Type 0 where
  pub lock_opens : Bool
  pub lock_taken : Bool
  pub state_opens : Bool
  pub state_stats : Bool
  pub reads : List Transfer
  pub temporary_opens : Bool
  pub permissions_set : Bool
  pub writes : List Transfer
  pub temporary_synced : Bool
  pub replaced : Bool
  pub directory_opens : Bool
  pub directory_synced : Bool

pub data PersistencePoint : Type 0 where
  after_lock after_temporary_sync after_replace after_directory_sync : PersistencePoint

-- A hook returns, or ends the process (`crash_hook` calls `::_exit`). A null hook always returns.
abbrev pub Hook : Type 0
Hook = PersistencePoint → Bool

pub data Outcome (A : Type 0) : Type 0 where
  returned : A → Outcome A
  threw : Exception → Outcome A
  exited : PersistencePoint → Outcome A

-- A run over a state. What was written stays written, also after a throw or an exit.
abbrev pub Stateful : Type 0 → Type 0 → Type 0
Stateful S A = S → Outcome A × S

abbrev pub Action : Type 0 → Type 0
Action A = Stateful Files A

infixl 5 ◌>>=◌ ◌>>◌
abbrev pub ◌>>=◌ : {S A B : Type 0} → Stateful S A → (A → Stateful S B) → Stateful S B
◌>>=◌ m f files =
    let (o, files') = m files in
    elim o [ returned a ↦ f a files' | threw e ↦ (threw e, files') | exited p ↦ (exited p, files') ]

abbrev pub ◌>>◌ : {S B : Type 0} → Stateful S (Unit {0}) → Stateful S B → Stateful S B
m >> k = m >>= λ _. k

module _ {S A : Type 0} where
  abbrev pub pure : A → Stateful S A
  pure a files = (returned a, files)

  abbrev pub throw : Exception → Stateful S A
  throw e files = (threw e, files)

  abbrev pub lift : Result A → Stateful S A
  lift (ok a) = pure a
  lift (err e) = throw e

-- `if (!succeeded) throw e;`
abbrev pub check : {S : Type 0} → Bool → Exception → Stateful S (Unit {0})
check true e = pure tt
check false e = throw e

abbrev pub modify : {S : Type 0} → (S → S) → Stateful S (Unit {0})
modify f files = (returned tt, f files)

abbrev pub gets : {S A : Type 0} → (S → A) → Stateful S A
gets f files = (returned (f files), files)

abbrev pub invoke_hook : Hook → PersistencePoint → Action (Unit {0})
invoke_hook hook point files = elim (hook point) [
  | true ↦ (exited point, files)
  | false ↦ (returned tt, files)
]

pub Outcome-cases :
    {A : Type 0} (o : Outcome A)
    → ((a : A) × (o ≡ returned a))
      ⊎ (((e : Exception) × (o ≡ threw e)) ⊎ ((p : PersistencePoint) × (o ≡ exited p)))
Outcome-cases (returned a) = inl (a, refl)
Outcome-cases (threw e) = inr (inl (e, refl))
Outcome-cases (exited p) = inr (inr (p, refl))

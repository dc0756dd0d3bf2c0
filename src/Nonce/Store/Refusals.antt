-- ===== src/Nonce/Store/Refusals.antt =====
-- When `allocate` hands out nothing: damaged files, another key's file, a spent counter.
use perfectvaluecubesymmetri.Base.{
  same_bytes, same_bytes_eq, ◌≡◌, ◌≢◌, refl, ap, ◌∙◌, sym, true, false, Option, none, some, [],
  arith, Bytes, AllBytes, length, invalid_argument, Bool-cases, Result-cases, Option-cases, inl,
  inr, take-all, ok, subst,
}
use perfectvaluecubesymmetri.Nonce.Counter.{CounterState, IsWellFormed, encode_state, decode_state}
use perfectvaluecubesymmetri.Nonce.Counter.Accept.{encode_state-decode_state}
use perfectvaluecubesymmetri.Nonce.Counter.Read.{decode_state-encode_state}
use perfectvaluecubesymmetri.Nonce.Counter.Write.{length-encode_state}
use perfectvaluecubesymmetri.Nonce.Store.{initial, load_file, load_state, allocate}
use perfectvaluecubesymmetri.Nonce.Store.Effects.{
  Files, Kernel, Hook, Outcome-cases, returned, threw,
}
use perfectvaluecubesymmetri.Nonce.Store.Transfers.{read_all, read_all-ok}
use perfectvaluecubesymmetri.Nonce.Store.Effect.{Holds}
use perfectvaluecubesymmetri.Nonce.Store.Healthy.{IsHealthy, null_hook, read_all_healthy}

pub initial-IsWellFormed :
    (scope : Bytes) → length scope ≡ 16 → AllBytes scope → IsWellFormed (initial scope)
initial-IsWellFormed scope size bytes = record {
  scope_length = size;
  scope_bytes = bytes;
  next_length = refl;
  next_bytes = omega arith;
}

abbrev pub FileBytes : Option Bytes → Type 0
FileBytes none = Unit
FileBytes (some file) = AllBytes file

-- A file from which a state is loaded is that state's image.
load_file-image :
    (kernel : Kernel) (scope file : Bytes) (files files' : Files) (state : CounterState)
    → AllBytes file
    → load_file kernel scope file files ≡ (returned state, files')
    → IsWellFormed state × (state.scope ≡ scope) × (file ≡ encode_state state)
unfolding load_file
load_file-image kernel scope file files files' state bytes e =
    elim (Result-cases (read_all kernel.reads 90 file [])) [
      | inl (read, r) ↦
          let size : length file ≡ 90 = ground arith in
          let same : read ≡ file =
            read_all-ok kernel.reads 90 file [] r ∙ take-all 90 file (omega arith) in
          let decoded : decode_state file ≡ ok state = ground (arith, same, r) in
          let scopes : same_bytes state.scope scope ≡ true = ground (arith, same, r) in
          let (w, image) = encode_state-decode_state file state size bytes decoded in
          (w, same_bytes_eq state.scope scope scopes, sym image)
      | inr (x, r) ↦ absurd (ground (arith, r))
    ]

load_state-Holds :
    (kernel : Kernel) (scope : Bytes) (files files' : Files) (state : CounterState)
    → length scope ≡ 16
    → AllBytes scope
    → FileBytes files.state
    → load_state kernel scope files ≡ (returned state, files')
    → Holds scope files state
unfolding load_state
load_state-Holds kernel scope files files' state size bytes on_disk e =
    elim (Option-cases files.state) [
      | inl missing ↦
          let fresh : state ≡ initial scope = ground arith in
          record {
            well_formed = subst IsWellFormed (sym fresh) (initial-IsWellFormed scope size bytes);
            same_scope = ap (λ (s : CounterState). s.scope) fresh;
            stored = inr (missing, fresh);
          }
      | inr (file, found) ↦
          let loaded : load_file kernel scope file files ≡ (returned state, files') =
            ground arith in
          let (w, scopes, image) =
            load_file-image kernel scope file files files' state (subst FileBytes found on_disk)
              loaded in
          record { well_formed = w; same_scope = scopes; stored = inl (found ∙ ap some image) }
    ]

-- A nonce is returned only where the file is missing or is, byte for byte, the image of a state of
-- this scope that is not exhausted, and then it is that state's nonce. The scope has 16 bytes, and the
-- file holds bytes.
pub allocate-returned :
    (kernel : Kernel) (hook : Hook) (scope : Bytes) (files files' : Files) (nonce : Bytes)
    → length scope ≡ 16
    → AllBytes scope
    → FileBytes files.state
    → allocate kernel hook scope files ≡ (returned nonce, files')
    → (state : CounterState) × Holds scope files state
      × (state.exhausted ≡ false)
      × (nonce ≡ state.next)
unfolding allocate
allocate-returned kernel hook scope files files' nonce size bytes on_disk e =
    elim (Outcome-cases (load_state kernel scope files).0) [
      | inl (state, loaded) ↦ (
        state,
        load_state-Holds kernel scope files (load_state kernel scope files).1 state size bytes
            on_disk (ap (λ o. (o, (load_state kernel scope files).1)) loaded),
        ground (arith, loaded),
        ground (arith, loaded),
      )
      | inr (inl (x, failed)) ↦ absurd (ground (arith, failed))
      | inr (inr (p, failed)) ↦ absurd (ground (arith, failed))
    ]

load_file_other :
    (kernel : Kernel) (scope : Bytes) (files : Files) (state : CounterState)
    → IsHealthy kernel
    → IsWellFormed state
    → state.scope ≢ scope
    → load_file kernel scope (encode_state state) files
      ≡ (threw (invalid_argument "nonce counter scope does not match state file"), files)
unfolding load_file
load_file_other kernel scope files state h w other =
    let differ : same_bytes state.scope scope ≡ false =
      elim (Bool-cases (same_bytes state.scope scope)) [
        | inl same ↦ absurd (other (same_bytes_eq state.scope scope same))
        | inr d ↦ d
      ] in
    ground (
      arith,
      read_all_healthy kernel state h w,
      decode_state-encode_state state w,
      length-encode_state state w,
      differ,
    )

-- An undisturbed call on the image of a well-formed state of another scope is refused, and changes
-- nothing.
pub allocate_other_scope :
    (kernel : Kernel) (scope : Bytes) (files : Files) (state : CounterState)
    → IsHealthy kernel
    → IsWellFormed state
    → files.state ≡ some (encode_state state)
    → state.scope ≢ scope
    → allocate kernel null_hook scope files
      ≡ (threw (invalid_argument "nonce counter scope does not match state file"), files)
unfolding allocate load_state
allocate_other_scope kernel scope files state h w found other =
    ground (arith, load_file_other kernel scope files state h w other)

-- ===== src/Nonce/Counter.antt =====
-- The persistent counter's state and its file image: `CounterState`, `encode_state`, `decode_state`
-- and `increment` of analysis/nonce_management/nonce_management.cpp.
-- A `std::array<std::uint8_t, N>` is a list of numbers; its length and its bytes' range are stated by
-- `IsWellFormed`.
pub mod Write
pub mod Read
pub mod Accept
pub mod Value
mod Tests
use perfectvaluecubesymmetri.Base.{
  ℕ, zero, suc, ◌+◌, ◌-◌, ◌≡◌, Bool, true, false, not, ◌&&◌, ◌||◌, String, [], ◌∷◌, reverse, ltb,
  ◌==◌, if◌then◌else◌, Bytes, AllBytes, length, get_or, set, replicate, Result, ok, runtime_error,
  ◌>>=◌, ◌>>◌, require, throw_if,
}

pub record CounterState : Type 0 where
  pub scope : Bytes
  pub next : Bytes
  pub exhausted : Bool

-- `kStateMagic`, "PVCNCTR1".
abbrev pub state_magic : Bytes
state_magic = b'P' ∷ b'V' ∷ b'C' ∷ b'N' ∷ b'C' ∷ b'T' ∷ b'R' ∷ b'1' ∷ []

abbrev pub scope_offset : ℕ
scope_offset = 8

abbrev pub scope_complement_offset : ℕ
scope_complement_offset = scope_offset + 16

abbrev pub exhausted_offset : ℕ
exhausted_offset = scope_complement_offset + 16

abbrev pub exhausted_complement_offset : ℕ
exhausted_complement_offset = exhausted_offset + 1

abbrev pub nonce_offset : ℕ
nonce_offset = exhausted_complement_offset + 1

abbrev pub nonce_complement_offset : ℕ
nonce_complement_offset = nonce_offset + 24

abbrev pub state_bytes : ℕ
state_bytes = nonce_complement_offset + 24

-- `static_cast<std::uint8_t>(~value)` of a byte.
abbrev pub complement : ℕ → ℕ
complement value = 255 - value

-- The bytes of `source` copied to `target` from `offset` on (`std::copy`).
pub copy_at : ℕ → Bytes → Bytes → Bytes
copy_at offset [] target = target
copy_at offset (x ∷ source) target = copy_at (suc offset) source (set target offset x)

-- The two copying loops of `encode_state`: each value at `plain`, its complement at `flipped`.
pub write_redundant : ℕ → ℕ → Bytes → Bytes → Bytes
write_redundant plain flipped [] encoded = encoded
write_redundant plain flipped (x ∷ values) encoded =
    write_redundant (suc plain) (suc flipped) values
      (set (set encoded plain x) flipped (complement x))

abbrev pub flag : Bool → ℕ
flag b = if b then 1 else 0

pub encode_state : CounterState → Bytes
unfolding copy_at write_redundant
encode_state state =
    let blank = replicate state_bytes 0 in
    let marked = copy_at 0 state_magic blank in
    let scoped = write_redundant scope_offset scope_complement_offset state.scope marked in
    let flagged = set scoped exhausted_offset (flag state.exhausted) in
    let checked =
      set flagged exhausted_complement_offset (complement (get_or flagged exhausted_offset 0)) in
    write_redundant nonce_offset nonce_complement_offset state.next checked

-- `std::equal` of `expected` with the bytes of `encoded` from `offset` on.
pub equal_at : ℕ → Bytes → Bytes → Bool
equal_at offset [] encoded = true
equal_at offset (x ∷ expected) encoded =
    x == get_or encoded offset 0 && equal_at (suc offset) expected encoded

-- The two checking loops of `decode_state`, over `count` bytes: the values, or the error on the
-- first that does not agree with its complement.
pub read_redundant : String → ℕ → ℕ → ℕ → Bytes → Result Bytes
read_redundant message zero plain flipped encoded = ok []
read_redundant message (suc count) plain flipped encoded = do
  let value = get_or encoded plain 0
  require (get_or encoded flipped 0 == complement value) (runtime_error message)
  rest ← read_redundant message count (suc plain) (suc flipped) encoded
  ok (value ∷ rest)

pub decode_state : Bytes → Result CounterState
unfolding equal_at read_redundant
decode_state encoded = do
  require (equal_at 0 state_magic encoded) (runtime_error "nonce counter state magic mismatch")
  scope ←
      read_redundant "nonce counter scope redundancy mismatch" 16 scope_offset
        scope_complement_offset encoded
  let exhausted = get_or encoded exhausted_offset 0
  throw_if
      (ltb 1 exhausted
        || not (get_or encoded exhausted_complement_offset 0 == complement exhausted))
      (runtime_error "nonce counter exhausted flag mismatch")
  next ←
      read_redundant "nonce counter value redundancy mismatch" 24 nonce_offset
        nonce_complement_offset encoded
  ok (record { scope = scope; next = next; exhausted = exhausted == 1 })

-- The loop of `increment` over the reversed array: `true` at the first byte that takes the carry.
pub carry : Bytes → Bytes × Bool
carry [] = ([], false)
carry (x ∷ xs) =
    let (rest, done) = carry xs in if x == 255 then (0 ∷ rest, done) else ((x + 1) ∷ xs, true)

pub increment : Bytes → Bytes × Bool
unfolding carry
increment nonce = let (reversed, done) = carry (reverse nonce) in (reverse reversed, done)

-- What the types of the arrays say.
pub record IsWellFormed (state : CounterState) : Type 0 where
  pub scope_length : length state.scope ≡ 16
  pub scope_bytes : AllBytes state.scope
  pub next_length : length state.next ≡ 24
  pub next_bytes : AllBytes state.next
